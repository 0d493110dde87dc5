-- ===== src/Observe/Ring.antt =====
-- internal/obs/log.go: Ring, the log lines behind GET /logs.
pub mod Cut
pub mod Latest
use wallet_service.Prelude.{
  ℕ, ◌-◌, ℤ, pos, negsuc, Text, Bool, true, false, ◌&&◌, Option, none, some, List, [], ◌∷◌, ◌++◌,
  length, drop, ltb, ◌==◌, if◌then◌else◌,
}

-- The fields of Ring; its lock serialises the calls.
pub record Ring : Type 0 where
  pub lines : List Text
  pub max : ℕ

abbrev pub new_ring : ℕ → Ring
new_ring max = record { lines = []; max = max }

unfoldable pub push : Text → Ring → Ring
push line r =
    let lines = r.lines ++ line ∷ [] in
    if ltb r.max (length lines)
    then record r { lines = drop (length lines - r.max) lines }
    else record r { lines = lines }

-- `if i > start { r.push(string(p[start:i])) }`, on the bytes p[start:i].
abbrev pub push_given : Text → Ring → Ring
push_given [] r = r
push_given (b ∷ s) r = push (b ∷ s) r

-- The loop of Write, with the bytes p[start:i] at hand, and the push after it.
unfoldable pub write_from : Text → Text → Ring → Ring
write_from line [] r = push_given line r
write_from line (b ∷ p) r =
    write_from (if b == b'\n' then [] else line ++ b ∷ []) p
      (if b == b'\n' then push_given line r else r)

unfoldable pub write : Text → Ring → Ring
write p r = write_from [] p r

-- `lines[len(lines)-n:]`, which panics if there are fewer lines.
abbrev pub slice_last : ℕ → List Text → Option (List Text)
slice_last n lines = if ltb (length lines) n then none else some (drop (length lines - n) lines)

-- The lines that ServeHTTP prints, or `none` if it panics. No limit, and one that strconv.Atoi
-- refuses, are `none` too.
unfoldable pub served : Option ℤ → Ring → Option (List Text)
served none r = some r.lines
served (some (negsuc n)) r = some r.lines
served (some (pos n)) r =
    if ltb 0 n && ltb n (length r.lines) then slice_last n r.lines else some r.lines
