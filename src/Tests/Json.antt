-- ===== src/Tests/Json.antt =====
-- A concrete codec for accounts: every text ends with 0, and lists go by their length.
use saros.Base.{
  ◌≡◌, refl, sym, ap, ◌∙◌, ℕ, zero, suc, List, [], ◌∷◌, Option, none, some, length, Text, Outcome,
  ok,
}
use saros.Account.{Credential, StoredUser, Json, IsJson}
use saros.Db.Table.{DbError}

abbrev write_text : Text → List ℕ → List ℕ
write_text [] rest = 0 ∷ rest
write_text (c ∷ t) rest = suc c ∷ write_text t rest

abbrev read_text : List ℕ → Text × List ℕ
read_text [] = ([], [])
read_text (zero ∷ rest) = ([], rest)
read_text (suc c ∷ rest) = let r = read_text rest in (c ∷ r.0, r.1)

read_text-write_text : (t : Text) (rest : List ℕ) → read_text (write_text t rest) ≡ (t, rest)
read_text-write_text [] rest = refl
read_text-write_text (c ∷ t) rest = ap (λ r. (c ∷ r.0, r.1)) (read_text-write_text t rest)

abbrev write_number : ℕ → List ℕ → List ℕ
write_number n rest = n ∷ rest

abbrev read_number : List ℕ → ℕ × List ℕ
read_number [] = (0, [])
read_number (n ∷ rest) = (n, rest)

abbrev write_email : Option Text → List ℕ → List ℕ
write_email none rest = 0 ∷ rest
write_email (some t) rest = 1 ∷ write_text t rest

abbrev read_email : List ℕ → Option Text × List ℕ
read_email [] = (none, [])
read_email (zero ∷ rest) = (none, rest)
read_email (suc n ∷ rest) = let r = read_text rest in (some r.0, r.1)

read_email-write_email :
    (e : Option Text) (rest : List ℕ) → read_email (write_email e rest) ≡ (e, rest)
read_email-write_email none rest = refl
read_email-write_email (some t) rest = ap (λ r. (some r.0, r.1)) (read_text-write_text t rest)

abbrev write_all : List (Credential Text) → List ℕ → List ℕ
write_all [] rest = rest
write_all (c ∷ cs) rest = write_text c.passkey (write_text c.label (c.added_at ∷ write_all cs rest))

abbrev read_all : ℕ → List ℕ → List (Credential Text) × List ℕ
read_all zero bytes = ([], bytes)
read_all (suc n) bytes =
    let key = read_text bytes in
    let label = read_text key.1 in
    let at = read_number label.1 in
    let others = read_all n at.1 in
    (record { passkey = key.0; label = label.0; added_at = at.0 } ∷ others.0, others.1)

read_all-write_all :
    (cs : List (Credential Text)) (rest : List ℕ)
    → read_all (length cs) (write_all cs rest) ≡ (cs, rest)
read_all-write_all [] rest = refl
read_all-write_all (c ∷ cs) rest =
    rw
      (
        read_text-write_text c.passkey (write_text c.label (c.added_at ∷ write_all cs rest)),
        read_text-write_text c.label (c.added_at ∷ write_all cs rest),
        read_all-write_all cs rest,
      )
      refl

abbrev write_user : StoredUser Text → List ℕ
write_user u = write_text u.uuid (
    write_text u.username (write_email u.email (length u.credentials ∷ write_all u.credentials [])))

abbrev read_user : List ℕ → StoredUser Text
read_user bytes =
    let uuid = read_text bytes in
    let name = read_text uuid.1 in
    let email = read_email name.1 in
    let count = read_number email.1 in
    let credentials = read_all count.0 count.1 in
    record { uuid = uuid.0; username = name.0; credentials = credentials.0; email = email.0 }

read_user-write_user : (u : StoredUser Text) → read_user (write_user u) ≡ u
read_user-write_user u =
    rw
      (
        read_text-write_text u.uuid (
            write_text u.username
              (write_email u.email (length u.credentials ∷ write_all u.credentials []))),
        read_text-write_text u.username
            (write_email u.email (length u.credentials ∷ write_all u.credentials [])),
        read_email-write_email u.email (length u.credentials ∷ write_all u.credentials []),
        read_all-write_all u.credentials [],
      )
      refl

abbrev pub codec : Json Text
codec = record { to_writer = λ u. ok (write_user u); from_slice = λ bytes. ok (read_user bytes) }

pub codec-IsJson : IsJson codec
codec-IsJson = record {
  from_slice-to_writer = λ user bytes h.
      ap {B = Outcome DbError (StoredUser Text)} ok
        (ap read_user (sym (some_ok h)) ∙ read_user-write_user user);
}
  where
    some_ok : {a b : List ℕ} → Path (Outcome DbError (List ℕ)) (ok a) (ok b) → a ≡ b
    some_ok g = cc
