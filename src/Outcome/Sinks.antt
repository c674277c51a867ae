-- ===== src/Outcome/Sinks.antt =====
-- What the program writes bytes to: the file of transactions and the sockets. Their `write_all` is
-- not part of the repository; the model chooses beforehand how each call ends.
use dst_demo.Prelude.{ℕ, Bool, true, false, List, [], ◌∷◌, ◌++◌, take}

-- How a call of `write_all` ends: all is written, or it fails after some first bytes.
pub data Fate : Type 0 where
  written : Fate
  broken : ℕ → Fate

-- The bytes written so far, and the fates of the calls to come; those after the last succeed.
pub record Sink : Type 0 where
  pub content : List ℕ
  pub fates : List Fate

abbrev pub write_fated : List ℕ → List ℕ → List Fate → Bool × Sink
write_fated content bytes [] = (true, record { content = content ++ bytes; fates = [] })
write_fated content bytes (written ∷ fates) =
    (true, record { content = content ++ bytes; fates = fates })
write_fated content bytes (broken n ∷ fates) =
    (false, record { content = content ++ take n bytes; fates = fates })

-- Whether the write succeeded.
abbrev pub write_all : List ℕ → Sink → Bool × Sink
write_all bytes s = write_fated s.content bytes s.fates
