-- ===== src/ToolEvents/Prompt.antt =====
-- pkg/toolevents/promptparser.go: whether the end of a pane's content asks for input. The regular
-- expressions are the library's.
use mathlib.Core.List.{reverse}
use tmuxatlas.Common.{
  ℕ, suc, Bool, not, ◌&&◌, List, [], ◌∷◌, ◌++◌, Option, none, some, Text, bytes, length, leb, ltb,
  any, if◌then◌else◌, trim_space, is_empty, same_text,
}

-- What each pattern says of a text, with strings.ToLower, and strings.Split of the text without its
-- last newlines.
pub record Patterns : Type 0 where
  pub yes_no : Text → Bool
  pub key_options : Text → List Text
  pub numbered_option : Text → Bool
  pub input_suffix : Text → Bool
  pub shell_prompt : Text → Bool
  pub asks_to_continue : Text → Bool
  pub contains_word : Text → Bool
  pub to_lower : Text → Text
  pub split_lines : Text → List Text

-- The last entries of a list, at most `limit` of those that are not white space, each trimmed, from
-- the end on: the loop goes backwards, so the lines come in reverse.
unfoldable pub last_lines : ℕ → List Text → List Text → List Text
last_lines limit [] tail = tail
last_lines limit (line ∷ earlier) tail =
    let trimmed = trim_space line in
    let taken = leb limit (length tail) in
    last_lines limit earlier
      (if taken then tail else if is_empty trimmed then tail else trimmed ∷ tail)

unfoldable pub join_lines : List Text → Text
join_lines [] = []
join_lines (line ∷ []) = line
join_lines (line ∷ next ∷ rest) = line ++ bytes "\n" ++ join_lines (next ∷ rest)

unfoldable pub last_of : List Text → Text
last_of [] = []
last_of (line ∷ []) = line
last_of (line ∷ next ∷ rest) = last_of (next ∷ rest)

abbrev pub has_text : Text → List Text → Bool
has_text s seen = any (λ t. same_text t s) seen

module _ (patterns : Patterns) where
  open patterns use {
    yes_no, key_options, numbered_option, input_suffix, shell_prompt, asks_to_continue,
    contains_word, to_lower, split_lines,
  }

  unfoldable pub unique_strings : List Text → List Text → List Text
  unique_strings seen [] = []
  unique_strings seen (s ∷ rest) =
      let lower = to_lower s in
      let others = unique_strings (if has_text lower seen then seen else lower ∷ seen) rest in
      if has_text lower seen then others else s ∷ others

  unfoldable pub numbered_count : List Text → ℕ
  numbered_count [] = 0
  numbered_count (line ∷ rest) =
      let count = numbered_count rest in if numbered_option line then suc count else count

  -- The five checks, on the lines that were taken.
  unfoldable pub prompt_of : List Text → Option Text
  unfolding join_lines last_of unique_strings numbered_count
  prompt_of [] = none
  prompt_of (line ∷ lines) =
      let tail = line ∷ lines in
      let block = join_lines tail in
      let last_line = last_of tail in
      if yes_no block
      then some (bytes "Approval prompt detected")
      else if leb 2 (length (unique_strings [] (key_options block)))
      then some (bytes "Approval prompt detected")
      else if leb 2 (numbered_count tail) && input_suffix last_line
      then some (bytes "Selection prompt detected")
      else if asks_to_continue last_line
      then some (bytes "Input prompt detected")
      else if input_suffix last_line
          && not (shell_prompt last_line)
          && ltb (length last_line) 80
          && ltb 3 (length last_line)
          && contains_word last_line
      then some (bytes "Input prompt detected")
      else none

  -- DetectPrompt: the message, if the content is a prompt.
  unfoldable pub detect_prompt : Text → Option Text
  unfolding last_lines prompt_of
  detect_prompt content = prompt_of (last_lines 10 (reverse (split_lines content)) [])
