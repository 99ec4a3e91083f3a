-- ===== src/Aws/Cache.antt =====
-- GetAndCache of aws/cache.go over the cache of a third party, which forgets an entry when its time
-- is over: a parameter, whose state stands for one moment.
use mathlib.Core.Path.{subst}
use registrator.Common.{
  eq-cases, ◌≡◌, refl, ap, String, Option, none, some, Option-cases, inl, inr, if◌then◌else◌, ◌==◌,
}

pub record Cache (V : Type 0) : Type 1 where
  pub State : Type 0
  pub get : String → State → Option V
  pub set : String → V → State → State
  pub delete : String → State → State

-- What is set is there, as long as its time is not over.
abbrev pub Keeps : {V : Type 0} → Cache V → Type 0
Keeps C = (k : String) (v : _) (s : C.State) → C.get k (C.set k v s) ≡ some v

-- A cache in which a key that is set changes no other one.
abbrev pub SetsOne : {V : Type 0} → Cache V → Type 0
SetsOne C =
    (k j : String) (v : _) (s : C.State)
    → C.get j (C.set k v s) ≡ (if k == j then some v else C.get j s)

module _ {V : Type 0} (C : Cache V) where
  abbrev store : String → Option V → C.State → Option V × C.State
  store key none s = (none, s)
  store key (some v) s = (some v, C.set key v s)

  -- The function is called only where the cache has no entry; its error is not kept.
  unfoldable pub get_and_cache :
      {I : Type 0} → String → I → (I → Option V) → C.State → Option V × C.State
  get_and_cache key input f s = elim (C.get key s) [
    | none ↦ store key (f input) s
    | some v ↦ (some v, s)
  ]

  same_answer :
      {v w : V} {s s' : C.State}
      → ◌≡◌ {A = Option V × C.State} (some v, s) (some w, s')
      → (v ≡ w) × (s ≡ s')
  same_answer {v = v} {w = w} e = (same (ap (λ p. p.0) e), ap (λ p. p.1) e)
    where
      same : some v ≡ some w → v ≡ w
      same e = cc

  stored :
      Keeps C
      → (key : String) (o : Option V) (s s' : C.State) (v : V) → store key o s ≡ (some v, s')
      → C.get key s' ≡ some v
  stored keeps key none s s' v e = let no : none ≡ some v = ap (λ p. p.0) e in cc
  stored keeps key (some w) s s' v e =
      let (same, same_state) = same_answer e in rw (← same, ← same_state) (keeps key w s)

  -- With a cache that keeps what is set: a second call with the same key gives the value of a
  -- first one that succeeded, whatever its input and its function are, and changes nothing.
  get_and_cache-twice :
      {I J : Type 0}
      → Keeps C
      → (key : String) (i : I) (f : I → Option V) (j : J) (g : J → Option V) (s s' : C.State)
        (v : V)
      → get_and_cache key i f s ≡ (some v, s')
      → get_and_cache key j g s' ≡ (some v, s')
  unfolding get_and_cache
  get_and_cache-twice keeps key i f j g s s' v e = rw (found, get_and_cache) refl
    where
      found : C.get key s' ≡ some v
      found = elim (Option-cases (C.get key s)) [
        | inl h ↦ stored keeps key (f i) s s' v (rw (h, get_and_cache) at e)
        | inr (w, h) ↦
            let (same, same_state) = same_answer (rw (h, get_and_cache) at e) in
            rw (← same, ← same_state) h
      ]

  -- An entry that is there stays as it is.
  pub get_and_cache-kept :
      {I : Type 0}
      → SetsOne C
      → (key : String) (i : I) (f : I → Option V) (j : String) (v : V) (s : C.State)
      → C.get j s ≡ some v
      → C.get j (get_and_cache key i f s).1 ≡ some v
  unfolding get_and_cache
  get_and_cache-kept sets key i f j v s e = elim (Option-cases (C.get key s)) [
    | inl n ↦ elim (Option-cases (f i)) [
      | inl failed ↦ rw (n, get_and_cache) (rw failed e)
      | inr (w, given) ↦ rw (n, get_and_cache) (rw given (beside w n))
    ]
    | inr (w, e') ↦ rw (e', get_and_cache) e
  ]
    where
      beside : (w : V) → C.get key s ≡ none → C.get j (C.set key w s) ≡ some v
      beside w n = elim (eq-cases key j) [
        | inl (same, t) ↦ let clash : C.get j s ≡ none = subst (λ k. C.get k s ≡ none) same n in cc
        | inr (_, t) ↦ rw (sets key j w s, t) e
      ]
