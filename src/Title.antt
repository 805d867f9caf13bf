-- ===== src/Title.antt =====
-- The title of a process: app/ngx_setproctitle.cxx, with the sizes that main of app/nginx.cxx counts
-- and the title that ngx_master_process_cycle of proc/ngx_process_cycle.cxx makes. A string is the list
-- of its bytes with no NUL; memory is a list of bytes, and a write behind its end has no result.
pub mod Writing
pub mod Moved
pub mod Named
use net_server.Base.{
  ℕ, zero, suc, ◌+◌, ◌-◌, Option, none, some, ◌>>=◌, List, [], ◌∷◌, ◌++◌, length, take, ltb, leb,
  ◌==◌, if◌then◌else◌, replicate,
}
use net_server.Base.Text.{bytes}

-- g_argvneedmem and g_envneedmem.
abbrev pub needed : List (List ℕ) → ℕ
needed [] = 0
needed (s ∷ ss) = (length s + 1) + needed ss

-- Bytes are written to the start of a memory, and to an offset.
unfoldable pub overwrite : List ℕ → List ℕ → Option (List ℕ)
overwrite [] mem = some mem
overwrite (b ∷ bs) [] = none
overwrite (b ∷ bs) (m ∷ mem) = overwrite bs mem >>= λ rest. some (b ∷ rest)

unfoldable pub write_at : ℕ → List ℕ → List ℕ → Option (List ℕ)
unfolding overwrite
write_at zero bs mem = overwrite bs mem
write_at (suc off) bs [] = none
write_at (suc off) bs (m ∷ mem) = write_at off bs mem >>= λ rest. some (m ∷ rest)

-- What memset(…, 0, n) writes.
abbrev pub nuls : ℕ → List ℕ
nuls n = replicate n 0

-- strcpy
abbrev pub strcpy : ℕ → List ℕ → List ℕ → Option (List ℕ)
strcpy off s mem = write_at off (s ++ 0 ∷ []) mem

-- The string at the start of a memory.
abbrev pub string_of : List ℕ → List ℕ
string_of [] = []
string_of (b ∷ bs) = if b == 0 then [] else b ∷ string_of bs

-- The loop of ngx_init_setproctitle: the new values of environ as offsets, and gp_envmem.
unfoldable pub move_loop : List (List ℕ) → ℕ → List ℕ → Option (List ℕ × List ℕ)
move_loop [] ptmp mem = some ([], mem)
move_loop (e ∷ es) ptmp mem = strcpy ptmp e mem >>= λ mem'.
    (move_loop es (ptmp + (length e + 1)) mem' >>= λ r. some (ptmp ∷ r.0, r.1))

-- ngx_init_setproctitle
unfoldable pub init_setproctitle : List (List ℕ) → Option (List ℕ × List ℕ)
init_setproctitle environ = move_loop environ 0 (nuls (needed environ))

-- ngx_setproctitle: the pointers of g_os_argv before the first NULL, and the memory at g_os_argv[0], of
-- which `esy` bytes are the program's.
unfoldable pub setproctitle : ℕ → List ℕ → List ℕ → List ℕ → Option (List ℕ × List ℕ)
setproctitle esy title argv mem =
    if leb esy (length title)
    then some (argv, mem)
    else strcpy 0 title mem >>= λ mem'.
        (write_at (length title) (nuls (esy - length title)) mem' >>= λ mem''.
        some (take 1 argv, mem''))

-- strcat into an array of 1000 bytes.
abbrev pub strcat : List ℕ → List ℕ → Option (List ℕ)
strcat text s = if ltb (length text + length s) 1000 then some (text ++ s) else none

unfoldable pub strcat_all : List (List ℕ) → List ℕ → Option (List ℕ)
strcat_all [] text = some text
strcat_all (a ∷ argv) text = strcat text a >>= strcat_all argv

-- The title that ngx_master_process_cycle makes, if it makes one.
unfoldable pub master_title : ℕ → List (List ℕ) → Option (Option (List ℕ))
master_title argv_need_mem argv =
    if ltb (15 + argv_need_mem) 1000
    then (strcat [] (bytes "master process") >>= λ text.
        (strcat text (bytes " ") >>= λ text'.
        (strcat_all argv text' >>= λ title. some (some title))))
    else some none

-- What ngx_master_process_cycle does with it: the pointers of g_os_argv, and the memory.
unfoldable pub name_master : ℕ → ℕ → List (List ℕ) → List ℕ → List ℕ → Option (List ℕ × List ℕ)
unfolding master_title setproctitle
name_master argv_need_mem env_need_mem argv pointers mem =
    master_title argv_need_mem argv >>= λ made. elim made [
      | none ↦ some (pointers, mem)
      | some title ↦ setproctitle (argv_need_mem + env_need_mem) title pointers mem
    ]
