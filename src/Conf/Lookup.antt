-- ===== src/Conf/Lookup.antt =====
-- What GetString and GetIntDefault find after Load.
use net_server.Base.{
  ℕ, ◌≤◌, ◌≢◌, length, ◌++◌, ◌≡◌, Bool, Option, none, some, ◌>>=◌, List, [], ◌∷◌, All,
  if◌then◌else◌,
}
use net_server.Strings.{c_str}
use net_server.Conf.{Item, line_room, load_line, load_loop}
use net_server.Conf.Fields.{Setting, IsSetting, Keeps, core, line}

-- The first setting whose name is the same.
abbrev pub first_value : (List ℕ → List ℕ → Bool) → List Setting → List ℕ → Option (List ℕ)
first_value same [] itemname = none
first_value same (s ∷ settings) itemname =
    let rest = first_value same settings itemname in
    if same s.name itemname then some s.value else rest

-- The number that a value stands for, or the default.
abbrev pub int_or : (List ℕ → ℕ) → Option (List ℕ) → ℕ → ℕ
int_or atoi none def = def
int_or atoi (some value) def = atoi value

-- The items are the settings, one by one.
pub data AllKeep : List Setting → List Item → Type 0 where
  keep_none : AllKeep [] []
  keep_next :
      {s : Setting} {item : Item} {settings : List Setting} {items : List Item}
      → Keeps s item
      → AllKeep settings items
      → AllKeep (s ∷ settings) (item ∷ items)

-- A setting in a line of its own, which ends with '\n' and fits into `linebuf`.
pub record IsLine (s : Setting) : Type 0 where
  pub setting : IsSetting s
  pub before_end : List ℕ
  pub ends : s.ending ≡ before_end ++ 10 ∷ []
  pub one_line : All (λ b. b ≢ 10) (core s ++ before_end)
  pub short : length (line s) ≤ line_room

-- The lines one after the other.
abbrev pub file_of : List Setting → List ℕ
file_of [] = []
file_of (s ∷ settings) = line s ++ file_of settings

-- A turn of the loop, on a file that has a chunk.
after_chunk : ℕ → List ℕ × List ℕ → Option (List Item)
after_chunk fuel r = do
  items ← load_line (c_str (r.0 ++ 0 ∷ []))
  rest ← load_loop fuel r.1
  some (items ++ rest)
