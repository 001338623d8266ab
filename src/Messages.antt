-- ===== src/Messages.antt =====
-- backend/agent/state.py (get_message_text) and the langchain messages that the control plane
-- reads. A message's content is a text or a list of blocks; of a message of the model the control
-- plane reads the tool calls and the usage that the provider reports.
use Prim.Native.String.{◌++◌ as text_append}
use text.Mathlib.Text.{find?}
use refactor_agent.Common.{
  String, ◌≡◌, refl, Bool, true, false, Option, none, some, List, [], ◌∷◌, ◌++◌,
}

-- An element of a content list: a dict with a "text" entry, another dict, a plain text, or other.
pub data Block : Type 0 where
  text_block : String → Block
  plain : String → Block
  other_dict other_value : Block

pub data Content : Type 0 where
  str : String → Content
  blocks : List Block → Content
  -- `str(content or "")` of anything else.
  other : String → Content

unfoldable pub join_text : List String → String
join_text [] = ""
join_text (s ∷ ss) = text_append s (join_text ss)

-- `separator.join(parts)`
unfoldable pub join_with : String → List String → String
join_with sep [] = ""
join_with sep (s ∷ []) = s
join_with sep (s ∷ t ∷ ss) = text_append s (text_append sep (join_with sep (t ∷ ss)))

block_texts : List Block → List String
block_texts [] = []
block_texts (text_block s ∷ bs) = s ∷ block_texts bs
block_texts (plain s ∷ bs) = s ∷ block_texts bs
block_texts (other_dict ∷ bs) = block_texts bs
block_texts (other_value ∷ bs) = block_texts bs

unfoldable pub get_message_text : Content → String
unfolding block_texts join_text
get_message_text (str s) = s
get_message_text (blocks bs) = join_text (block_texts bs)
get_message_text (other s) = s

-- `marker in content`
unfoldable pub mentions : String → String → Bool
mentions content marker = elim (find? content marker) [ none ↦ false | some _ ↦ true ]

-- A tool call, by the tool's name.
pub record ToolCall : Type 0 where
  pub tool : String

pub data Message : Type 0 where
  human system : Content → Message
  ai : Content → List ToolCall → Message
  tool_response : Content → Message

abbrev pub content_of : Message → Content
content_of (human c) = c
content_of (system c) = c
content_of (ai c calls) = c
content_of (tool_response c) = c

-- `messages[-1]`; `none` is IndexError.
unfoldable pub last? {ℓ} : {A : Type ℓ} → List A → Option A
last? [] = none
last? (x ∷ []) = some x
last? (x ∷ y ∷ xs) = last? (y ∷ xs)

pub last?-append {ℓ} : {A : Type ℓ} (xs : List A) (x : A) → last? (xs ++ x ∷ []) ≡ some x
unfolding last?
last?-append [] x = refl
last?-append (y ∷ []) x = refl
last?-append (y ∷ z ∷ xs) x = last?-append (z ∷ xs) x
