-- ===== src/Auth/Passwords.antt =====
-- backend/app/services/auth_service.py: `hash_password` and `verify_password`, over hashlib.pbkdf2_hmac,
-- base64 and int, which are arguments.
use ai_child.Prelude.{
  ℕ, zero, suc, ◌≡◌, Bool, false, List, [], ◌∷◌, ◌++◌, Option, none, some, any, nat_eq,
  if◌then◌else◌, arith, refl, ap, ◌∙◌,
}
use ai_child.PyText.{PyText, codes, join, text_is}

-- the letters in front of the first separator, and what stands behind it
unfoldable pub cut : ℕ → PyText → PyText × Option PyText
cut sep [] = ([], none)
cut sep (c ∷ t) =
    let rest = cut sep t in if nat_eq c sep then ([], some t) else (c ∷ rest.0, rest.1)

-- text.split(sep, most)
unfoldable pub split_at_most : ℕ → ℕ → PyText → List PyText
unfolding cut
split_at_most sep zero t = t ∷ []
split_at_most sep (suc most) t =
    let (front, behind) = cut sep t in
    elim behind [ none ↦ front ∷ [] | some rest ↦ front ∷ split_at_most sep most rest ]

abbrev pub dollar : ℕ
dollar = 36

-- PASSWORD_HASH_ALGORITHM
abbrev pub password_hash_algorithm : PyText
password_hash_algorithm = codes "pbkdf2_sha256"

-- PASSWORD_HASH_ITERATIONS, and its text
abbrev pub password_hash_iterations : ℕ
password_hash_iterations = 210000

abbrev pub iterations_text : PyText
iterations_text = codes "210000"

module _ (pbkdf2 : PyText → PyText → ℕ → PyText) (b64encode : PyText → PyText)
    (b64decode : PyText → Option PyText) (to_int : PyText → Option ℕ) where
  -- hash_password, with the salt that is drawn
  unfoldable pub hash_password : PyText → PyText → PyText
  hash_password salt password = join (codes "$") (
      password_hash_algorithm
      ∷ iterations_text
      ∷ b64encode salt
      ∷ b64encode (pbkdf2 password salt password_hash_iterations)
      ∷ [])

  -- the part of verify_password behind the decoding of its fields
  unfoldable pub verify_fields : PyText → Option PyText → Option PyText → Option ℕ → Bool
  verify_fields password (some salt) (some expected) (some iterations) =
      text_is (pbkdf2 password salt iterations) expected
  verify_fields password salt expected iterations = false

  -- verify_password on the fields of the hash
  unfoldable pub verify_parts : PyText → List PyText → Bool
  unfolding verify_fields
  verify_parts password (algorithm ∷ iterations ∷ salt ∷ digest ∷ []) =
      if text_is algorithm password_hash_algorithm
      then verify_fields password (b64decode salt) (b64decode digest) (to_int iterations)
      else false
  verify_parts password parts = false

  -- verify_password
  unfoldable pub verify_password : PyText → PyText → Bool
  unfolding verify_parts split_at_most
  verify_password password password_hash =
      verify_parts password (split_at_most dollar 3 password_hash)

  cut-without :
      (front rest : PyText)
      → any (nat_eq dollar) front ≡ false
      → cut dollar (front ++ (dollar ∷ rest)) ≡ (front, some rest)
  unfolding cut
  cut-without [] rest h = ground arith
  cut-without (c ∷ front) rest h = ground (arith, cut-without front rest (ground arith))

  split_in_two :
      (front rest : PyText)
      → any (nat_eq dollar) front ≡ false
      → split_at_most dollar 1 (front ++ (dollar ∷ rest)) ≡ front ∷ rest ∷ []
  unfolding split_at_most
  split_in_two front rest h =
      ap
        (λ (p : PyText × Option PyText). elim p.1 as (λ _. List PyText) [
          | none ↦ p.0 ∷ []
          | some r ↦ p.0 ∷ r ∷ []
        ])
        (cut-without front rest h)

  verify_fields-known :
      (password salt expected : PyText) (n : ℕ) (s e : Option PyText) (i : Option ℕ)
      → s ≡ some salt
      → e ≡ some expected
      → i ≡ some n
      → verify_fields password s e i ≡ text_is (pbkdf2 password salt n) expected
  unfolding verify_fields
  verify_fields-known password salt expected n s e i hs he hi = rw hs (rw he (rw hi refl))

  -- A password passes against the hash of a password exactly if the two have the same digest under its
  -- salt: the password itself always does. It is assumed that base64 decodes what it encodes, that it
  -- makes no dollar sign, and that the number of iterations is read back.
  pub verify_password-hash_password :
      (salt password other : PyText)
      → ((t : PyText) → b64decode (b64encode t) ≡ some t)
      → ((t : PyText) → any (nat_eq dollar) (b64encode t) ≡ false)
      → to_int iterations_text ≡ some password_hash_iterations
      → verify_password other (hash_password salt password)
        ≡ text_is
            (pbkdf2 other salt password_hash_iterations)
            (pbkdf2 password salt password_hash_iterations)
  unfolding verify_password verify_parts hash_password join split_at_most text_is
  verify_password-hash_password salt password other decodes plain reads =
      let digest = pbkdf2 password salt password_hash_iterations in
      ap (λ parts. verify_parts other (password_hash_algorithm ∷ iterations_text ∷ parts))
        (split_in_two (b64encode salt) (b64encode digest) (plain salt))
      ∙ verify_fields-known other salt digest password_hash_iterations _ _ _ (decodes salt)
          (decodes digest) reads
