-- ===== src/Program/Observed.antt =====
-- Programs with what they have seen: a state that each command and its reply lead on.
use aerosuite.Base.{List, [], ◌∷◌, All, ◌≡◌, refl, Bool, true, false, if◌then◌else◌, subst, sym}
use aerosuite.Program.{
  Call, Reply, Prog, ret, call, Result, ok, err, ◌>>=◌, ◌>>=?◌, on_ok, Env, Error, Emits, Returns,
}

module _ {S : Type 0} (after : S → (c : Call) → Reply c → S) (P : S → Call → Type 0) where
  -- Whatever the replies are, each command is one that `P` allows after what was seen before it, and the
  -- result satisfies `Q` after what was seen in all.
  abbrev pub Observes : {A : Type 0} → (S → A → Type 0) → S → Prog A → Type 0
  Observes Q s (ret a) = Q s a
  Observes Q s (call c k) = P s c × ((r : Reply c) → Observes Q (after s c r) (k r))

  pub Observes-bind :
      {A B : Type 0} (Q : S → A → Type 0) (R : S → B → Type 0) (s : S) (m : Prog A) (f : A → Prog B)
      → Observes Q s m
      → ((t : S) (a : A) → Q t a → Observes R t (f a))
      → Observes R s (m >>= f)
  Observes-bind Q R s (ret a) f h k = k s a h
  Observes-bind Q R s (call c m) f h k =
      (h.0, λ r. Observes-bind Q R (after s c r) (m r) f (h.1 r) k)

  pub Observes-mono :
      {A : Type 0} {Q R : S → A → Type 0} (s : S) (m : Prog A)
      → ((t : S) (a : A) → Q t a → R t a)
      → Observes Q s m
      → Observes R s m
  Observes-mono s (ret a) f h = f s a h
  Observes-mono s (call c k) f h = (h.0, λ r. Observes-mono (after s c r) (k r) f (h.1 r))

  -- The `?` operator, where the result of an error is allowed.
  pub Observes-then :
      {A B : Type 0} (Q : S → Result A → Type 0) (R : S → Result B → Type 0) (s : S)
      (m : Prog (Result A)) (f : A → Prog (Result B))
      → Observes Q s m
      → ((t : S) (a : A) → Q t (ok a) → Observes R t (f a))
      → ((t : S) (e : Error) → Q t (err e) → R t (err e))
      → Observes R s (m >>=? f)
  Observes-then Q R s m f h k e = Observes-bind Q R s m (on_ok f) h (λ t r.
      elim r as (λ x. Q t x → Observes R t (on_ok f x)) [
        | ok a ↦ λ q. k t a q
        | err x ↦ λ q. e t x q
      ])

  pub Observes-if :
      {A : Type 0} (Q : S → A → Type 0) (s : S) (b : Bool) (m n : Prog A)
      → (b ≡ true → Observes Q s m)
      → (b ≡ false → Observes Q s n)
      → Observes Q s (if b then m else n)
  Observes-if Q s true m n hm hn = hm refl
  Observes-if Q s false m n hm hn = hn refl

  -- The result is of no matter.
  abbrev pub Follows : {A : Type 0} → S → Prog A → Type 0
  Follows s m = Observes (λ t a. Unit {0}) s m

  pub Follows-bind :
      {A B : Type 0} (s : S) (m : Prog A) (f : A → Prog B)
      → Follows s m
      → ((t : S) (a : A) → Follows t (f a))
      → Follows s (m >>= f)
  Follows-bind s m f h k =
      Observes-bind (λ t a. Unit {0}) (λ t a. Unit {0}) s m f h (λ t a u. k t a)

  pub Follows-on_ok :
      {A B : Type 0} (s : S) (f : A → Prog (Result B)) (r : Result A)
      → ((a : A) → Follows s (f a))
      → Follows s (on_ok f r)
  Follows-on_ok s f (ok a) h = h a
  Follows-on_ok s f (err e) h = tt

  pub Follows-Returns-bind :
      {A B : Type 0} (Q : A → Type 0) (s : S) (m : Prog A) (f : A → Prog B)
      → Follows s m
      → Returns Q m
      → ((t : S) (a : A) → Q a → Follows t (f a))
      → Follows s (m >>= f)
  Follows-Returns-bind Q s (ret a) f h q k = k s a q
  Follows-Returns-bind Q s (call c m) f h q k =
      (h.0, λ r. Follows-Returns-bind Q (after s c r) (m r) f (h.1 r) (q r) k)

  -- What a program emits in any case it may also emit after what was seen.
  pub Emits-Follows :
      {A : Type 0} (C : Call → Type 0) (s : S) (m : Prog A)
      → ((t : S) (c : Call) → C c → P t c)
      → Emits C m
      → Follows s m
  Emits-Follows C s (ret a) w h = tt
  Emits-Follows C s (call c k) w h = (w s c h.0, λ r. Emits-Follows C (after s c r) (k r) w (h.1 r))

  pub Observes-Emits :
      {A : Type 0} (C : Call → Type 0) (Q : S → A → Type 0) (s : S) (m : Prog A)
      → ((t : S) (c : Call) → P t c → C c)
      → Observes Q s m
      → Emits C m
  Observes-Emits C Q s (ret a) w h = tt
  Observes-Emits C Q s (call c k) w h =
      (w s c h.0, λ r. Observes-Emits C Q (after s c r) (k r) w (h.1 r))

-- With weaker demands.
pub Follows-weaken :
    {S A : Type 0} (after : S → (c : Call) → Reply c → S) (P R : S → Call → Type 0) (s : S)
    (m : Prog A)
    → ((t : S) (c : Call) → P t c → R t c)
    → Follows after P s m
    → Follows after R s m
Follows-weaken after P R s (ret a) w h = tt
Follows-weaken after P R s (call c k) w h =
    (w s c h.0, λ r. Follows-weaken after P R (after s c r) (k r) w (h.1 r))

-- The states seen in a run, each with the command that follows it.
module _ {S : Type 0} (after : S → (c : Call) → Reply c → S) where
  unfoldable pub history : {A : Type 0} (env : Env) → S → Prog A → env.World → List (S × Call)
  history env s (ret a) w = []
  history env s (call c k) w =
      (s, c) ∷ history env (after s c (env.exec c w).0) (k (env.exec c w).0) (env.exec c w).1

  pub Observes-history :
      {A : Type 0} (P : S → Call → Type 0) (Q : S → A → Type 0) (env : Env) (s : S) (m : Prog A)
      (w : env.World)
      → Observes after P Q s m
      → All (λ (p : S × Call). P p.0 p.1) (history env s m w)
  unfolding history
  Observes-history P Q env s (ret a) w h = tt
  Observes-history P Q env s (call c k) w h = (
    h.0,
    Observes-history P Q env (after s c (env.exec c w).0) (k (env.exec c w).0) (env.exec c w).1
        (h.1 _),
  )

-- A program whose commands leave the state as it is ends in the state in which it began.
pub Emits-Observes :
    {S A : Type 0} (after : S → (c : Call) → Reply c → S) (P : S → Call → Type 0)
    (R : Call → Type 0) (s : S) (m : Prog A)
    → ((c : Call) → R c → P s c)
    → ((c : Call) (r : Reply c) → R c → after s c r ≡ s)
    → Emits R m
    → Observes after P (λ t a. t ≡ s) s m
Emits-Observes after P R s (ret a) allowed stays h = refl
Emits-Observes after P R s (call c k) allowed stays h = (
  allowed c h.0,
  λ r.
      subst (λ t. Observes after P (λ u a. u ≡ s) t (k r)) (sym (stays c r h.0))
        (Emits-Observes after P R s (k r) allowed stays (h.1 r)),
)
