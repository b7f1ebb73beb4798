-- ===== src/Tests/Auth.antt =====
-- crates/auth/src/sasl/plain.rs at concrete inputs.
use brev.Base.{◌≡◌, ◌↔◌, ◌∷◌, ◌++◌, Bytes, codes}
use brev.Auth.Plain.{Credentials, Validated, valid, break, continue, eat, Encodes, eat_iff}

-- NUL, "bob", NUL, "hunter2".
abbrev sent : Bytes
sent = 0 ∷ (codes "bob" ++ 0 ∷ codes "hunter2")

abbrev bob : Credentials
bob = record { username = codes "bob"; password = codes "hunter2" }

abbrev accept_all : Credentials → Validated
accept_all c = valid c.username

eat_iff_example :
    ((eat accept_all sent ≡ break (codes "bob"))
      ↔ ((c : Credentials) × Encodes c sent × (accept_all c ≡ valid (codes "bob"))))
    × ((more : Bytes) → eat accept_all sent ≡ continue more → ⊥)
eat_iff_example = eat_iff accept_all sent (codes "bob")
