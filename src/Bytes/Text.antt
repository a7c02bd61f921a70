-- ===== src/Bytes/Text.antt =====
-- C strings: bytes up to the first zero.
use cauchy.Prelude.{ℕ, suc, List, [], ◌∷◌, ◌==◌, if◌then◌else◌}

-- `strlen`: the bytes in front of the first zero.
abbrev pub strlen : List ℕ → ℕ
strlen [] = 0
strlen (b ∷ bytes) = let rest = strlen bytes in if b == 0 then 0 else suc rest
