-- ===== src/Xml/Tree.antt =====
-- Printed elements: what extract_balanced returns from a text that a tree prints.
use aerosuite.Base.{
  ℕ, ◌≡◌, refl, sym, Bytes, false, none, some, [], ◌∷◌, ◌++◌, nat_beq, strip_prefix, arith,
  Bool-cases, inl, inr, ◌≢◌, All, bytes_eq, Bool, true, not, ◌&&◌, ◌||◌,
}
use aerosuite.Xml.{open_tag, close_tag}

-- A sequence of elements and texts, each with what follows it.
pub data Content : Type 0 where
  done : Content
  text : Bytes → Content → Content
  element : Bytes → Content → Content → Content

unfoldable pub print : Content → Bytes
print done = []
print (text t after) = t ++ print after
print (element name inside after) =
    open_tag name ++ (print inside ++ (close_tag name ++ print after))

-- A name has no `<`, `>` or `/`.
abbrev pub IsName : Bytes → Type 0
IsName name = All (λ c. (c ≢ 60) × (c ≢ 62) × (c ≢ 47)) name

unfoldable pub is_name : Bytes → Bool
is_name [] = true
is_name (c ∷ name) = not (nat_beq c 60 || (nat_beq c 62 || nat_beq c 47)) && is_name name

pub is_name-IsName : (name : Bytes) → is_name name ≡ true → IsName name
unfolding is_name
is_name-IsName [] h = tt
is_name-IsName (c ∷ name) h =
    let plain : nat_beq c 60 || (nat_beq c 62 || nat_beq c 47) ≡ false = ground (arith, h) in
    let rest : is_name name ≡ true = ground (arith, h) in
    (
      (λ e. ground (arith, plain, e), λ e. ground (arith, plain, e), λ e. ground (arith, plain, e)),
      is_name-IsName name rest,
    )

abbrev pub IsText : Bytes → Type 0
IsText t = All (λ c. c ≢ 60) t

unfoldable pub IsWellFormed : Content → Type 0
IsWellFormed done = Unit {0}
IsWellFormed (text t after) = IsText t × IsWellFormed after
IsWellFormed (element name inside after) = IsName name × IsWellFormed inside × IsWellFormed after

unfoldable pub is_text : Bytes → Bool
is_text [] = true
is_text (c ∷ t) = not (nat_beq c 60) && is_text t

unfoldable pub is_well_formed : Content → Bool
unfolding is_name is_text
is_well_formed done = true
is_well_formed (text t after) = is_text t && is_well_formed after
is_well_formed (element name inside after) =
    is_name name && (is_well_formed inside && is_well_formed after)

is_text-IsText : (t : Bytes) → is_text t ≡ true → IsText t
unfolding is_text
is_text-IsText [] h = tt
is_text-IsText (c ∷ t) h =
    let plain : nat_beq c 60 ≡ false = ground (arith, h) in
    let rest : is_text t ≡ true = ground (arith, h) in
    (λ e. ground (arith, plain, e), is_text-IsText t rest)

pub is_well_formed-IsWellFormed : (x : Content) → is_well_formed x ≡ true → IsWellFormed x
unfolding is_well_formed IsWellFormed
is_well_formed-IsWellFormed done h = tt
is_well_formed-IsWellFormed (text t after) h =
    (is_text-IsText t (ground (arith, h)), is_well_formed-IsWellFormed after (ground (arith, h)))
is_well_formed-IsWellFormed (element name inside after) h = (
  is_name-IsName name (ground (arith, h)),
  is_well_formed-IsWellFormed inside (ground (arith, h)),
  is_well_formed-IsWellFormed after (ground (arith, h)),
)

pub strip-same : (p r : Bytes) → strip_prefix p (p ++ r) ≡ some r
unfolding strip_prefix
strip-same [] r = refl
strip-same (c ∷ p) r = ground (arith, strip-same p r)

pub strip-other :
    (p : ℕ) (ps : Bytes) (c : ℕ) (s : Bytes) → c ≢ p → strip_prefix (p ∷ ps) (c ∷ s) ≡ none
unfolding strip_prefix
strip-other p ps c s d = ground (arith, d)

-- Two names with their `>` agree only if they are the same.
pub strip-name :
    (tag name r : Bytes)
    → IsName tag
    → IsName name
    → tag ≢ name
    → strip_prefix (tag ++ 62 ∷ []) (name ++ 62 ∷ r) ≡ none
unfolding strip_prefix
strip-name [] [] r t n d = absurd (d refl)
strip-name [] (c ∷ name) r t n d = strip-other 62 [] c (name ++ 62 ∷ r) n.0.1
strip-name (b ∷ tag) [] r t n d = strip-other b (tag ++ 62 ∷ []) 62 r (λ e. t.0.1 (sym e))
strip-name (b ∷ tag) (c ∷ name) r t n d = elim (Bool-cases (nat_beq b c)) [
  | inl e ↦
      let same : b ≡ c = ground (arith, e) in
      rw e (strip-name tag name r t.1 n.1 (λ k. d (rw (same, k) refl)))
  | inr e ↦ rw e refl
]

-- A closing tag is not an opening one: no name begins with `/`.
pub strip-slash : (name r : Bytes) → IsName name → strip_prefix (name ++ 62 ∷ []) (47 ∷ r) ≡ none
strip-slash [] r n = strip-other 62 [] 47 r (omega arith)
strip-slash (c ∷ name) r n = strip-other c (name ++ 62 ∷ []) 47 r (λ e. n.0.2 (sym e))

pub strip-no_slash :
    (p name r : Bytes) → IsName name → strip_prefix (47 ∷ p) (name ++ 62 ∷ r) ≡ none
strip-no_slash p [] r n = strip-other 47 p 62 r (omega arith)
strip-no_slash p (c ∷ name) r n = strip-other 47 p c (name ++ 62 ∷ r) n.0.2

pub strip-cons :
    (c : ℕ) (p s : Bytes) → strip_prefix p s ≡ none → strip_prefix (c ∷ p) (c ∷ s) ≡ none
unfolding strip_prefix
strip-cons c p s e = ground (arith, e)

pub name-IsText : (name : Bytes) → IsName name → IsText (name ++ 62 ∷ [])
name-IsText [] h = ((λ e. absurd (omega (arith, e))), tt)
name-IsText (c ∷ name) h = (h.0.0, name-IsText name h.1)
