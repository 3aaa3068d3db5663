-- ===== src/Auth/Signing/Canonical.antt =====
-- The canonical string of crates/breeze-auth/src/signing.rs determines what was signed.
use breeze_core_native.Common.{ℕ, ◌≡◌, ◌≢◌, refl, String, List, [], ◌∷◌, ◌++◌, All, arith}
use breeze_core_native.Common.Texts.{codes}
use breeze_core_native.Auth.Signing.{Crypto, sha3_512_hex, build_canonical}

-- No line break, which no header, path or method can hold.
abbrev pub IsLine : List ℕ → Type 0
IsLine text = All (λ c. c ≢ 10) text

-- Two lines, each with what follows its line break.
abbrev SameLines : List ℕ → List ℕ → List ℕ → List ℕ → Type 0
SameLines xs ys rest rest' = (xs ≡ ys) × (rest ≡ rest')

split_line :
    (xs ys rest rest' : List ℕ)
    → IsLine xs
    → IsLine ys
    → xs ++ (10 ∷ rest) ≡ ys ++ (10 ∷ rest')
    → SameLines xs ys rest rest'
split_line [] [] rest rest' hx hy e = (refl, cc)
split_line [] (y ∷ ys) rest rest' hx hy e = absurd (hy.0 (cc))
split_line (x ∷ xs) [] rest rest' hx hy e = absurd (hx.0 (cc))
split_line (x ∷ xs) (y ∷ ys) rest rest' hx hy e =
    let (p, q) = split_line xs ys rest rest' hx.1 hy.1 (cc) in (cc, q)

prefix-IsLine : IsLine (codes "breeze-auth-v2")
prefix-IsLine = omega arith

-- The canonical string determines what a signature covers: two requests with one canonical string
-- agree in the upper-cased method, the path with its query, the timestamp, the nonce and the digest
-- of the body, where none of the four texts holds a line break.
pub build_canonical-injective :
    (crypto : Crypto) (method path timestamp nonce method' path' timestamp' nonce' : String)
    (body body' : List ℕ)
    → IsLine (crypto.to_uppercase (codes method))
    → IsLine (codes path)
    → IsLine (codes timestamp)
    → IsLine (codes nonce)
    → IsLine (crypto.to_uppercase (codes method'))
    → IsLine (codes path')
    → IsLine (codes timestamp')
    → IsLine (codes nonce')
    → build_canonical crypto method path timestamp nonce body
      ≡ build_canonical crypto method' path' timestamp' nonce' body'
    → (crypto.to_uppercase (codes method) ≡ crypto.to_uppercase (codes method'))
      × (codes path ≡ codes path')
      × (codes timestamp ≡ codes timestamp')
      × (codes nonce ≡ codes nonce')
      × (codes (sha3_512_hex crypto body) ≡ codes (sha3_512_hex crypto body'))
unfolding build_canonical
build_canonical-injective crypto method path timestamp nonce method' path' timestamp' nonce' body
      body' m p t n m' p' t' n' e =
    let first : SameLines (codes "breeze-auth-v2") (codes "breeze-auth-v2") _ _ =
      split_line (codes "breeze-auth-v2") (codes "breeze-auth-v2") _ _ prefix-IsLine prefix-IsLine
        e in
    let (e_method, r₁) = split_line _ _ _ _ m m' first.1 in
    let (e_path, r₂) = split_line _ _ _ _ p p' r₁ in
    let (e_time, r₃) = split_line _ _ _ _ t t' r₂ in
    let (e_nonce, r₄) = split_line _ _ _ _ n n' r₃ in (e_method, e_path, e_time, e_nonce, r₄)
