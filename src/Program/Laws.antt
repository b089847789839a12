-- ===== src/Program/Laws.antt =====
-- Laws of programs that hold in every environment.
use aerosuite.Base.{Bool, true, false, if◌then◌else◌, ◌≡◌, refl, ap, ◌∷◌, ◌++◌, All}
use aerosuite.Program.{
  Call, Prog, ret, call, Result, ok, err, ◌>>=◌, ◌>>=?◌, on_ok, Env, run, trace, Emits, Returns,
}

pub run-bind :
    {A B : Type 0} (env : Env) (m : Prog A) (f : A → Prog B) (w : env.World)
    → run env (m >>= f) w ≡ run env (f (run env m w).0) (run env m w).1
unfolding run
run-bind env (ret a) f w = refl
run-bind env (call c k) f w = run-bind env (k (env.exec c w).0) f (env.exec c w).1

pub trace-bind :
    {A B : Type 0} (env : Env) (m : Prog A) (f : A → Prog B) (w : env.World)
    → trace env (m >>= f) w ≡ trace env m w ++ trace env (f (run env m w).0) (run env m w).1
unfolding run trace
trace-bind env (ret a) f w = refl
trace-bind env (call c k) f w =
    ap (λ t. c ∷ t) (trace-bind env (k (env.exec c w).0) f (env.exec c w).1)

module _ (P : Call → Type 0) where
  pub Emits-bind :
      {A B : Type 0} (m : Prog A) (f : A → Prog B)
      → Emits P m
      → ((a : A) → Emits P (f a))
      → Emits P (m >>= f)
  Emits-bind (ret a) f hm hf = hf a
  Emits-bind (call c k) f hm hf = (hm.0, λ r. Emits-bind (k r) f (hm.1 r) hf)

  pub Emits-on_ok :
      {A B : Type 0} (f : A → Prog (Result B)) (r : Result A)
      → ((a : A) → Emits P (f a))
      → Emits P (on_ok f r)
  Emits-on_ok f (ok a) hf = hf a
  Emits-on_ok f (err e) hf = tt

  pub Emits-then :
      {A B : Type 0} (m : Prog (Result A)) (f : A → Prog (Result B))
      → Emits P m
      → ((a : A) → Emits P (f a))
      → Emits P (m >>=? f)
  Emits-then m f hm hf = Emits-bind m (on_ok f) hm (λ r. Emits-on_ok f r hf)

  -- What a program emits is what its runs contain.
  pub Emits-trace :
      {A : Type 0} (env : Env) (m : Prog A) (w : env.World) → Emits P m → All P (trace env m w)
  unfolding trace
  Emits-trace env (ret a) w h = tt
  Emits-trace env (call c k) w h =
      (h.0, Emits-trace env (k (env.exec c w).0) (env.exec c w).1 (h.1 _))

pub Emits-mono :
    {A : Type 0} {P Q : Call → Type 0} (m : Prog A)
    → ((c : Call) → P c → Q c)
    → Emits P m
    → Emits Q m
Emits-mono (ret a) h e = tt
Emits-mono (call c k) h e = (h c e.0, λ r. Emits-mono (k r) h (e.1 r))

pub Emits-bind-Returns :
    {A B : Type 0} (P : Call → Type 0) (Q : A → Type 0) (m : Prog A) (f : A → Prog B)
    → Emits P m
    → Returns Q m
    → ((a : A) → Q a → Emits P (f a))
    → Emits P (m >>= f)
Emits-bind-Returns P Q (ret a) f hm hq hf = hf a hq
Emits-bind-Returns P Q (call c k) f hm hq hf =
    (hm.0, λ r. Emits-bind-Returns P Q (k r) f (hm.1 r) (hq r) hf)

pub Returns-bind :
    {A B : Type 0} (Q : A → Type 0) (S : B → Type 0) (m : Prog A) (f : A → Prog B)
    → Returns Q m
    → ((a : A) → Q a → Returns S (f a))
    → Returns S (m >>= f)
Returns-bind Q S (ret a) f hq hf = hf a hq
Returns-bind Q S (call c k) f hq hf = λ r. Returns-bind Q S (k r) f (hq r) hf

pub Returns-any : {A : Type 0} (m : Prog A) → Returns (λ _. Unit {0}) m
Returns-any (ret a) = tt
Returns-any (call c k) = λ r. Returns-any (k r)

pub Returns-mono :
    {A : Type 0} {Q S : A → Type 0} (m : Prog A) → ((a : A) → Q a → S a) → Returns Q m → Returns S m
Returns-mono (ret a) h q = h a q
Returns-mono (call c k) h q = λ r. Returns-mono (k r) h (q r)

pub Returns-if :
    {A : Type 0} (Q : A → Type 0) (b : Bool) (m n : Prog A)
    → Returns Q m
    → Returns Q n
    → Returns Q (if b then m else n)
Returns-if Q true m n hm hn = hm
Returns-if Q false m n hm hn = hn

pub Emits-if :
    {A : Type 0} (P : Call → Type 0) (b : Bool) (m n : Prog A)
    → (b ≡ true → Emits P m)
    → (b ≡ false → Emits P n)
    → Emits P (if b then m else n)
Emits-if P true m n hm hn = hm refl
Emits-if P false m n hm hn = hn refl
