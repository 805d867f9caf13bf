-- ===== src/Conf.antt =====
-- app/ngx_c_conf.cxx: CConfig. A file is the list of its bytes. A line that is longer than the room that
-- fgets has is read in several turns, each as a line of its own. strcasecmp and atoi of the C library
-- are arguments. A write outside ItemName or ItemContent, or a read outside, has no result.
pub mod Fields
pub mod Lines
pub mod Lookup
pub mod Pieces
use net_server.Base.{
  ℕ, zero, suc, ◌+◌, ◌-◌, Bool, ◌&&◌, ◌||◌, not, Option, none, some, ◌>>=◌, List, [], ◌∷◌, ◌++◌,
  length, take, drop, replicate, get_or, leb, ltb, ◌==◌, if◌then◌else◌,
}
use net_server.Strings.{c_str, rtrim, ltrim}

-- CConfItem of _include/ngx_global.h, with ItemName[50] and ItemContent[500].
pub record Item : Type 0 where
  pub item_name : List ℕ
  pub item_content : List ℕ

-- The bytes that the loop of `lblprocstring` cuts off: '\n', '\r' and ' '.
abbrev pub is_end : ℕ → Bool
is_end b = b == 10 || b == 13 || b == b' '

-- A line that starts so is left out: ';', ' ', '#', '\t' and '\n'.
abbrev pub is_comment : ℕ → Bool
is_comment b = b == b';' || b == b' ' || b == b'#' || b == 9 || b == 10

-- The loop of `lblprocstring`, on the length of the line.
unfoldable pub strip_end : ℕ → List ℕ → List ℕ
strip_end zero linebuf = linebuf
strip_end (suc n) linebuf =
    let rest = strip_end n (take n linebuf) in if is_end (get_or linebuf n 0) then rest else linebuf

-- strchr, as the offset of what it finds.
unfoldable pub strchr : List ℕ → ℕ → Option ℕ
strchr [] c = none
strchr (b ∷ bs) c = let rest = strchr bs c in if b == c then some 0 else rest >>= λ n. some (suc n)

-- strncpy and strcpy into an array of `size` zeros.
unfoldable pub copy_name : ℕ → List ℕ → Option (List ℕ)
copy_name size text =
    if leb (length text) size then some (text ++ replicate (size - length text) 0) else none

unfoldable pub copy_content : ℕ → List ℕ → Option (List ℕ)
copy_content size text =
    if ltb (length text) size then some (text ++ replicate (size - length text) 0) else none

-- A line with '=' at offset `n`.
unfoldable pub conf_item : List ℕ → ℕ → Option Item
conf_item linebuf n = do
  name ← copy_name 50 (take n linebuf)
  content ← copy_content 500 (drop (suc n) linebuf)
  name₁ ← rtrim name
  name₂ ← ltrim name₁
  content₁ ← rtrim content
  content₂ ← ltrim content₁
  some (record { item_name = name₂; item_content = content₂ })

-- What is left of a line when its end is cut off, unless it is empty or a section.
unfoldable pub section_or_item : List ℕ → Option (List Item)
section_or_item linebuf =
    if length linebuf == 0
      || (get_or linebuf 0 0 == b'[' && get_or linebuf (length linebuf - 1) 0 == b']')
    then some []
    else elim (strchr linebuf b'=') [
      | none ↦ some []
      | some n ↦ conf_item linebuf n >>= λ item. some (item ∷ [])
    ]

-- A turn of the loop of Load: the items that it adds to m_configItemList.
unfoldable pub load_line : List ℕ → Option (List Item)
load_line linebuf =
    if length linebuf == 0 || is_comment (get_or linebuf 0 0)
    then some []
    else section_or_item (strip_end (length linebuf) linebuf)

-- What fgets reads of a file into a buffer with room for `n` bytes and a NUL: the bytes up to the first
-- '\n', which is one of them, and what is left of the file.
unfoldable pub fgets : ℕ → List ℕ → List ℕ × List ℕ
fgets zero file = ([], file)
fgets (suc n) [] = ([], [])
fgets (suc n) (b ∷ file) =
    let more = fgets n file in if b == 10 then (b ∷ [], file) else (b ∷ more.0, more.1)

-- fgets(linebuf, 500, fp)
abbrev pub line_room : ℕ
line_room = 499

-- The loop of Load on what is left of a file. A turn reads one byte or more, and the fuel bounds the
-- turns.
unfoldable pub load_loop : ℕ → List ℕ → Option (List Item)
load_loop zero file = none
load_loop (suc fuel) [] = some []
load_loop (suc fuel) (b ∷ file) =
    let (chunk, left) = fgets line_room (b ∷ file) in
    do items ← load_line (c_str (chunk ++ 0 ∷ [])); rest ← load_loop fuel left; some (items ++ rest)

-- Load, on the bytes of a file that could be opened.
unfoldable pub load : List ℕ → Option (List Item)
unfolding load_loop
load file = load_loop (suc (length file)) file

-- GetString. `same` is strcasecmp(...) == 0.
unfoldable pub get_string : (List ℕ → List ℕ → Bool) → List Item → List ℕ → Option (List ℕ)
get_string same [] itemname = none
get_string same (item ∷ items) itemname =
    let rest = get_string same items itemname in
    if same (c_str item.item_name) itemname then some (c_str item.item_content) else rest

-- GetIntDefault
unfoldable pub get_int_default :
    (List ℕ → List ℕ → Bool) → (List ℕ → ℕ) → List Item → List ℕ → ℕ → ℕ
get_int_default same atoi [] itemname def = def
get_int_default same atoi (item ∷ items) itemname def =
    let rest = get_int_default same atoi items itemname def in
    if same (c_str item.item_name) itemname then atoi (c_str item.item_content) else rest
