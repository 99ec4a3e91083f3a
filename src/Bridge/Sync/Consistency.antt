-- ===== src/Bridge/Sync/Consistency.antt =====
-- What the maps of a Bridge keep in common, and how each change of bridge/bridge.go to them keeps it.
use registrator.Common.{
  ◌≡◌, refl, sym, ◌∙◌, String, Bool, true, false, Option, none, some, List, [], inl, inr,
  if◌then◌else◌, ◌==◌, eq-cases, arith,
}
use registrator.Common.Int.{ℤ}
use registrator.Common.Map.{
  Map, get, get_or, put, delete, UniqueKeys, put-UniqueKeys, delete-UniqueKeys, get-put, get_or-put,
  get-delete, get_or-delete,
}
use registrator.Bridge.Types.{Service, DeadContainer}
use registrator.Bridge.Tracking.{is_nil}
use registrator.Bridge.Remove.{prune_dead}
use registrator.Bridge.Remove.Pruning.{prune-UniqueKeys, get-prune, pruned}

-- Every container stands once in each map and not in both: its services are tracked or set aside. What
-- is set aside is not empty.
pub record IsConsistent (services : Map (List Service)) (dead : Map DeadContainer) : Type 0 where
  pub keys : UniqueKeys services
  pub dead_keys : UniqueKeys dead
  pub separate : (id : String) → is_nil (get_or [] id services) ≡ false → get id dead ≡ none
  pub inhabited :
      (id : String) (d : DeadContainer) → get id dead ≡ some d → is_nil d.services ≡ false

same_services :
    (d d' : DeadContainer)
    → some d ≡ some d'
    → is_nil d.services ≡ false
    → is_nil d'.services ≡ false
same_services d d' e h = ground arith

module _ (services : Map (List Service)) (dead : Map DeadContainer) (v : IsConsistent services dead)
    (id : String) where
  -- Services of a container of which none are set aside.
  pub track-IsConsistent :
      (ss : List Service) → get id dead ≡ none → IsConsistent (put id ss services) dead
  track-IsConsistent ss none_aside = record {
    keys = put-UniqueKeys id ss services v.keys;
    dead_keys = v.dead_keys;
    separate = λ j h. elim (eq-cases id j) [
      | inl (e, t) ↦ rw (← e) none_aside
      | inr (e, t) ↦ v.separate j (rw (get_or-put [] id j ss services, t) at h)
    ];
    inhabited = v.inhabited;
  }

  pub forget-IsConsistent : IsConsistent (delete id services) dead
  forget-IsConsistent = record {
    keys = delete-UniqueKeys id services v.keys;
    dead_keys = v.dead_keys;
    separate = λ j h. elim (eq-cases id j) [
      | inl (e, t) ↦ let h' = rw (get_or-delete [] id j services, t) at h in cc
      | inr (e, t) ↦ v.separate j (rw (get_or-delete [] id j services, t) at h)
    ];
    inhabited = v.inhabited;
  }

  pub drop-IsConsistent : IsConsistent services (delete id dead)
  drop-IsConsistent = record {
    keys = v.keys;
    dead_keys = delete-UniqueKeys id dead v.dead_keys;
    separate = λ j h. rw (get-delete id j dead, v.separate j h) (both (id == j));
    inhabited = λ j d h. elim (eq-cases id j) [
      | inl (e, t) ↦ let h' = rw (get-delete id j dead, t) at h in cc
      | inr (e, t) ↦ v.inhabited j d (rw (get-delete id j dead, t) at h)
    ];
  }
    where
      both : (b : Bool) → ◌≡◌ {A = Option DeadContainer} (if b then none else none) none
      both true = refl
      both false = refl

  -- Services that are set aside and no longer tracked.
  pub bury-IsConsistent :
      (d : DeadContainer)
      → is_nil d.services ≡ false
      → IsConsistent (delete id services) (put id d dead)
  bury-IsConsistent d full = record {
    keys = delete-UniqueKeys id services v.keys;
    dead_keys = put-UniqueKeys id d dead v.dead_keys;
    separate = λ j h. elim (eq-cases id j) [
      | inl (e, t) ↦ let h' = rw (get_or-delete [] id j services, t) at h in cc
      | inr (e, t) ↦
          rw (get-put id j d dead, t) (v.separate j (rw (get_or-delete [] id j services, t) at h))
    ];
    inhabited = λ j d' h. elim (eq-cases id j) [
      | inl (e, t) ↦ same_services d d' (rw (get-put id j d dead, t) at h) full
      | inr (e, t) ↦ v.inhabited j d' (rw (get-put id j d dead, t) at h)
    ];
  }

  -- Services that were set aside and are tracked again.
  pub exhume-IsConsistent :
      (d : DeadContainer) → IsConsistent (put id d.services services) (delete id dead)
  exhume-IsConsistent d = record {
    keys = put-UniqueKeys id d.services services v.keys;
    dead_keys = delete-UniqueKeys id dead v.dead_keys;
    separate = λ j h. elim (eq-cases id j) [
      | inl (e, t) ↦ rw (get-delete id j dead, t) refl
      | inr (e, t) ↦
          rw (get-delete id j dead, t)
            (v.separate j (rw (get_or-put [] id j d.services services, t) at h))
    ];
    inhabited = λ j d' h. elim (eq-cases id j) [
      | inl (e, t) ↦ let h' = rw (get-delete id j dead, t) at h in cc
      | inr (e, t) ↦ v.inhabited j d' (rw (get-delete id j dead, t) at h)
    ];
  }

pruned-inhabited :
    (i : ℤ) (o : Option DeadContainer)
    → ((d : DeadContainer) → o ≡ some d → is_nil d.services ≡ false)
    → (d : DeadContainer) → pruned i o ≡ some d
    → is_nil d.services ≡ false
pruned-inhabited i none h d e = cc
pruned-inhabited i (some d') h d e = let f = h d' refl in ground arith

pub prune-IsConsistent :
    (services : Map (List Service)) (dead : Map DeadContainer) (i : ℤ)
    → IsConsistent services dead
    → IsConsistent services (prune_dead i dead)
prune-IsConsistent services dead i v = record {
  keys = v.keys;
  dead_keys = prune-UniqueKeys i dead v.dead_keys;
  separate = λ j h. rw (get-prune i j dead v.dead_keys, v.separate j h) refl;
  inhabited = λ j d e.
      pruned-inhabited i (get j dead) (v.inhabited j) d (sym (get-prune i j dead v.dead_keys) ∙ e);
}
