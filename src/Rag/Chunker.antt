-- ===== src/Rag/Chunker.antt =====
-- src/amberclaw/rag/chunker.py: texts cut into overlapping chunks. A text is its list of code points;
-- sizes are natural numbers, so the check for a negative overlap has no branch. IDs and metadata of
-- chunks are left out.
use amber_claw.Base.{
  ℕ, zero, suc, ◌+◌, ◌-◌, Bool, true, false, not, ◌&&◌, Option, none, some, Result, ok, raise, List,
  [], ◌∷◌, ◌++◌, leb, ltb, min, max, length, if◌then◌else◌,
}
use amber_claw.Base.Text.{Text, is_nil, rfind, slice, strip}
pub mod Windows
pub mod Cover

pub record Chunk : Type 0 where
  pub text : Text
  pub index : ℕ
  pub start_char : ℕ
  pub end_char : ℕ

pub record TextChunker : Type 0 where
  pub chunk_size : ℕ
  pub chunk_overlap : ℕ
  pub separator : Text

pub data Error : Type 0 where
  size_not_positive overlap_too_large : Error

unfoldable pub new_chunker : ℕ → ℕ → Text → Result Error TextChunker
new_chunker size overlap separator =
    if leb size 0
    then raise size_not_positive
    else if leb size overlap
    then raise overlap_too_large
    else ok (record { chunk_size = size; chunk_overlap = overlap; separator = separator })

abbrev pub or_else : Option ℕ → Option ℕ → Option ℕ
or_else none b = b
or_else (some a) b = some a

abbrev pub cut : ℕ → ℕ → Option ℕ → ℕ
cut pos end none = end
cut pos end (some boundary) = if ltb pos boundary then boundary else end

-- Where the window that starts at `pos` ends; the code point 32 is a space.
unfoldable pub window_end : TextChunker → Text → ℕ → ℕ
window_end c text pos =
    let end = min (pos + c.chunk_size) (length text) in
    let boundary =
      or_else (rfind c.separator (pos + c.chunk_overlap) end text)
        (rfind (32 ∷ []) (pos + c.chunk_overlap) end text) in
    if ltb end (length text) then cut pos end boundary else end

-- The chunk of a window, if it has more than white space.
unfoldable pub window_chunk : Text → ℕ → ℕ → ℕ → List Chunk
window_chunk text pos end idx =
    let content = strip (slice pos end text) in
    if not (is_nil content)
    then record { text = content; index = idx; start_char = pos; end_char = end } ∷ []
    else []

abbrev pub prepend : List Chunk → Option (List Chunk) → Option (List Chunk)
prepend found none = none
prepend found (some rest) = some (found ++ rest)

-- The start of the next window.
unfoldable pub next_pos : TextChunker → ℕ → ℕ → ℕ
next_pos c pos end = pos + max 1 (end - pos - c.chunk_overlap)

-- The loop of `chunk_text`; `none` is out of fuel.
unfoldable pub chunk_loop : ℕ → TextChunker → Text → ℕ → ℕ → Option (List Chunk)
chunk_loop zero c text pos idx = none
chunk_loop (suc fuel) c text pos idx =
    let end = window_end c text pos in
    let found = window_chunk text pos end idx in
    let rest = chunk_loop fuel c text (next_pos c pos end) (idx + length found) in
    if not (ltb pos (length text))
    then some []
    else if leb (length text) end
    then some found
    else prepend found rest

unfoldable pub chunk_text : TextChunker → Text → Option (List Chunk)
chunk_text c text = if is_nil (strip text) then some [] else chunk_loop (length text + 1) c text 0 0

-- The texts of the documents, in order.
unfoldable pub chunk_documents : TextChunker → List Text → Option (List Chunk)
chunk_documents c [] = some []
chunk_documents c (d ∷ ds) = join (chunk_text c d) (chunk_documents c ds)
  where
    join : Option (List Chunk) → Option (List Chunk) → Option (List Chunk)
    join none rest = none
    join (some found) rest = prepend found rest
