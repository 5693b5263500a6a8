-- ===== src/Connection/Fifos.antt =====
-- connection.c, create_fifos and unlink_fifos.
use comp_p.Common.{◌≡◌, ◌≢◌, Bool, true, false, List, ◌∷◌, Bytes, All}
use comp_p.Connection.{Creating}

-- The name does not exist.
abbrev pub IsFree : Bytes → List Bytes → Type 0
IsFree path names = All (λ p. p ≢ path) names

-- The names after create_fifos: on success the two paths, once each, and names that are neither. On
-- failure a path is left only if one of the calls of unlink for it has failed, and there is a call
-- that has failed.
abbrev pub AreMade : Creating → Bytes → Bytes → Bool × List Bytes → Type 0
AreMade os c2s s2c (true, names) =
    (others : List Bytes) × (names ≡ s2c ∷ c2s ∷ others) × IsFree c2s others × IsFree s2c others
AreMade os c2s s2c (false, names) =
    (os.unlink_c2s_ok ≡ true → os.clean_up_ok ≡ true → IsFree c2s names)
    × (os.unlink_s2c_ok ≡ true → IsFree s2c names)
    × (os.unlink_c2s_ok ≡ true
        → os.unlink_s2c_ok ≡ true
        → os.mkfifo_c2s_ok ≡ true
        → os.mkfifo_s2c_ok ≢ true)
