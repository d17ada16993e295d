-- ===== src/Infrastructure/Constructed.antt =====
-- No injection deadlocks: the services can be constructed one after another.
use mathlib.Core.List.{append_assoc}
use sdwan_agent.Prelude.{
  ◌≡◌, refl, ◌∙◌, ap, sym, subst, ℕ, zero, suc, ◌<◌, ◌≤◌, true, false, List, [], ◌∷◌, ◌++◌, All,
  Bool-cases, arith, inl, inr,
}
use sdwan_agent.Infrastructure.{
  holds, Kernel, Injected, injected, deadlocked, out_of_fuel, enter_once, leave_once, and_then,
  inject_each, inject,
}
use sdwan_agent.Infrastructure.Places.{
  injects-Lower, All-places, same_variable_refl, ||-here, holds-append, holds-above, holds-below,
}
use sdwan_agent.Infrastructure.Injections.{Service, place, injects}

-- The services constructed, the last first: each once, and after all that it injects.
abbrev pub Ordered : List Service → Type 0
Ordered [] = Unit
Ordered (s ∷ built) =
    (holds s built ≡ false) × All (λ d. holds d built ≡ true) (injects s) × Ordered built

-- What injections add: services of places below `m`, in an order that fits.
pub record Grown (m : ℕ) (k k' : Kernel) : Type 0 where
  pub new : List Service
  pub built_lem : k'.built ≡ new ++ k.built
  pub low : All (λ r. place r < m) new
  pub ordered : Ordered k'.built
  pub running_lem : k'.running ≡ k.running

abbrev pub Succeeds : (Kernel → Type 0) → Injected → Type 0
Succeeds P (injected k) = P k
Succeeds P deadlocked = ⊥
Succeeds P out_of_fuel = ⊥

-- What one injection does, for services of places below `m` with none of them under construction.
abbrev pub Injects : (m : ℕ) → Service → Kernel → Injected → Type 0
Injects m s k = Succeeds (λ k'. Grown m k k' × (holds s k'.built ≡ true))

abbrev pub InjectsEach : (m : ℕ) → List Service → Kernel → Injected → Type 0
InjectsEach m ss k = Succeeds (λ k'. Grown m k k' × All (λ d. holds d k'.built ≡ true) ss)

Grown-refl : (m : ℕ) (k : Kernel) → Ordered k.built → Grown m k k
Grown-refl m k o = record { new = []; built_lem = refl; low = tt; ordered = o; running_lem = refl }

All-append : (P : Service → Type 0) (xs ys : List Service) → All P xs → All P ys → All P (xs ++ ys)
All-append P [] ys a b = b
All-append P (x ∷ xs) ys a b = (a.0, All-append P xs ys a.1 b)

All-weaken :
    (P Q : Service → Type 0) (xs : List Service) → ((x : Service) → P x → Q x) → All P xs → All Q xs
All-weaken P Q [] h a = tt
All-weaken P Q (x ∷ xs) h a = (h x a.0, All-weaken P Q xs h a.1)

Grown-trans : (m : ℕ) (k k' k'' : Kernel) → Grown m k k' → Grown m k' k'' → Grown m k k''
Grown-trans m k k' k'' g h = record {
  new = h.new ++ g.new;
  built_lem =
      h.built_lem ∙ (ap (λ l. h.new ++ l) g.built_lem ∙ sym (append_assoc h.new g.new k.built));
  low = All-append _ h.new g.new h.low g.low;
  ordered = h.ordered;
  running_lem = h.running_lem ∙ g.running_lem;
}

module _ (m : ℕ) (s : Service) (ss : List Service) (k : Kernel) where
  each_then :
      (k' : Kernel)
      → Grown m k k'
      → holds s k'.built ≡ true
      → (r : Injected) → InjectsEach m ss k' r
      → InjectsEach m (s ∷ ss) k r
  each_then k' g b (injected k'') (g', bs) =
      (Grown-trans m k k' k'' g g', (rw g'.built_lem (holds-append s g'.new k'.built b), bs))
  each_then k' g b deadlocked x = x
  each_then k' g b out_of_fuel x = x

  each_after :
      (f : Kernel → Injected)
      → ((k' : Kernel) → Grown m k k' → InjectsEach m ss k' (f k'))
      → (r : Injected) → Injects m s k r
      → InjectsEach m (s ∷ ss) k (and_then r f)
  each_after f h (injected k') (g, b) = each_then k' g b (f k') (h k' g)
  each_after f h deadlocked x = x
  each_after f h out_of_fuel x = x

each-Injects :
    (m : ℕ) (f : Service → Kernel → Injected)
    → ((d : Service) (k : Kernel)
        → place d < m
        → All (λ r. m ≤ place r) k.running
        → Ordered k.built
        → Injects m d k (f d k))
    → (ss : List Service) (k : Kernel) → All (λ d. place d < m) ss
    → All (λ r. m ≤ place r) k.running
    → Ordered k.built
    → InjectsEach m ss k (inject_each f ss k)
each-Injects m f h [] k low above o = (Grown-refl m k o, tt)
each-Injects m f h (s ∷ ss) k low above o =
    each_after m s ss k (inject_each f ss)
      (λ k' g.
        each-Injects m f h ss k' low.1
          (subst (λ l. All (λ r. m ≤ place r) l) (sym g.running_lem) above) g.ordered)
      (f s k) (h s k low.0 above o)

-- After its injections a service is constructed.
leave_once-Injects :
    (m : ℕ) (s : Service) (k : Kernel)
    → place s < m
    → holds s k.built ≡ false
    → (r : Injected) → InjectsEach (place s) (injects s) (enter_once s k) r
    → Injects m s k (leave_once s k.running r)
unfolding holds
leave_once-Injects m s k h b (injected k') (g, ds) = (
  record {
    new = s ∷ g.new;
    built_lem = ap (λ l. s ∷ l) g.built_lem;
    low = (h, All-weaken _ _ g.new (λ r p. omega arith) g.low);
    ordered = (rw g.built_lem (holds-below s g.new k.built g.low b), ds, g.ordered);
    running_lem = refl;
  },
  ||-here _ (same_variable_refl s),
)
leave_once-Injects m s k h b deadlocked x = x
leave_once-Injects m s k h b out_of_fuel x = x

inject-Injects :
    (n m : ℕ) (s : Service) (k : Kernel)
    → m ≤ n
    → place s < m
    → All (λ r. m ≤ place r) k.running
    → Ordered k.built
    → Injects m s k (inject n s k)
unfolding inject
inject-Injects zero m s k fuel low above o = absurd (omega arith)
inject-Injects (suc n) m s k fuel low above o = elim (Bool-cases (holds s k.built)) [
  | inl e ↦ rw e (Grown-refl m k o, e)
  | inr e ↦
      let each =
        each-Injects (place s) (inject n)
          (λ d k' low' above' o'. inject-Injects n (place s) d k' (omega arith) low' above' o')
          (injects s) (enter_once s k) (injects-Lower s)
          (omega arith, All-weaken _ _ k.running (λ r p. omega arith) above) o in
      rw (e, holds-above s m k.running low above) (leave_once-Injects m s k low e _ each)
]

-- What a sequence of injections gives: the services asked for are constructed, those that were
-- before remain, none is under construction, and all are in order.
abbrev pub Constructed : List Service → Kernel → Injected → Type 0
Constructed ss k = InjectsEach 36 ss k

-- From a state in which no service is under construction, and each that is constructed was so once
-- and after all that it injects, any sequence of injections ends without a deadlock, and needs
-- calls of `Inject` functions at most 36 deep. Then the services asked for are constructed, those
-- from before stay, and each was constructed once and after all that it injects.
pub inject_each-Constructed :
    (n : ℕ) (ss : List Service) (k : Kernel)
    → 36 ≤ n
    → k.running ≡ []
    → Ordered k.built
    → Constructed ss k (inject_each (inject n) ss k)
inject_each-Constructed n ss k h e o =
    each-Injects 36 (inject n) (λ d k' low above o'. inject-Injects n 36 d k' h low above o') ss k
      (All-places ss) (rw e tt) o
