-- ===== src/Epoller/Poll.antt =====
-- `poll` of src/net/Epoller.cpp: which channels it returns, and in which order.
use simple_tcp.Prelude.{
  ℕ, ◌≤◌, ◌≡◌, refl, List, [], ◌∷◌, some, arith, Build, ok, lookup, length, ltb, Bool-cases, ltb→le,
  inl, inr, Bool, true, false,
}
use mathlib.Core.List.{Perm}
use mathlib.Core.List.Perm
use simple_tcp.Epoller.Mask.{Events}
use simple_tcp.Epoller.{Channel, Epoller, rank, comes_before, activate, poll}

abbrev pub AllBelow : ℕ → List Channel → Type 0
AllBelow n [] = Unit {0}
AllBelow n (c ∷ cs) = (rank c.priority ≤ n) × AllBelow n cs

-- No channel comes before one of higher priority.
abbrev pub ByPriority : List Channel → Type 0
ByPriority [] = Unit {0}
ByPriority (c ∷ cs) = AllBelow (rank c.priority) cs × ByPriority cs

-- What std::sort asks of a comparison: a strict weak order.
pub record IsStrictWeak (less : Channel → Channel → Bool) : Type 0 where
  pub asymmetric : (a b : Channel) → less a b ≡ true → less b a ≡ false
  pub negatively_transitive :
      (a b c : Channel) → less b a ≡ false → less c b ≡ false → less c a ≡ false

-- no channel of the list comes before `c`
abbrev pub NoneBefore : (Channel → Channel → Bool) → Channel → List Channel → Type 0
NoneBefore less c [] = Unit {0}
NoneBefore less c (d ∷ ds) = (less d c ≡ false) × NoneBefore less c ds

abbrev pub IsOrdered : (Channel → Channel → Bool) → List Channel → Type 0
IsOrdered less [] = Unit {0}
IsOrdered less (c ∷ cs) = NoneBefore less c cs × IsOrdered less cs

-- What `std::sort` guarantees for a strict weak order; it need not keep the order of channels of which
-- neither comes before the other.
pub record Sorter : Type 0 where
  pub run : (Channel → Channel → Bool) → List Channel → List Channel
  pub run_perm : (less : Channel → Channel → Bool) (cs : List Channel) → Perm (run less cs) cs
  pub run_ordered :
      (less : Channel → Channel → Bool) (cs : List Channel)
      → IsStrictWeak less
      → IsOrdered less (run less cs)

comes_before-IsStrictWeak : IsStrictWeak comes_before
comes_before-IsStrictWeak = record {
  asymmetric = λ a b h. lt→ltb' (rank a.priority) (rank b.priority) h;
  negatively_transitive =
      λ a b c h g. chain (rank a.priority) (rank b.priority) (rank c.priority) h g;
}
  where
    lt→ltb' : (m n : ℕ) → ltb n m ≡ true → ltb m n ≡ false
    lt→ltb' m n h = ground (arith, h)

    chain : (m n k : ℕ) → ltb m n ≡ false → ltb n k ≡ false → ltb m k ≡ false
    chain m n k h g = ground (arith, h, g)

below-NoneBefore :
    (c : Channel) (cs : List Channel) → NoneBefore comes_before c cs → AllBelow (rank c.priority) cs
below-NoneBefore c [] h = tt
below-NoneBefore c (d ∷ ds) h =
    (ltb→le (rank c.priority) (rank d.priority) h.0, below-NoneBefore c ds h.1)

IsOrdered-ByPriority : (cs : List Channel) → IsOrdered comes_before cs → ByPriority cs
IsOrdered-ByPriority [] h = tt
IsOrdered-ByPriority (c ∷ cs) h = (below-NoneBefore c cs h.0, IsOrdered-ByPriority cs h.1)

-- Every descriptor that `epoll_wait` reports has a channel.
abbrev pub AllKnown : Epoller → List (ℕ × Events) → Type 0
AllKnown p [] = Unit {0}
AllKnown p ((fd, events) ∷ ready) =
    ((id : ℕ) × (lookup fd p.channel_map ≡ some id)) × AllKnown p ready

module _ (object : ℕ → Channel) where
  -- The channels of the reported descriptors, each with the events reported for it.
  abbrev pub reported : (p : Epoller) (ready : List (ℕ × Events)) → AllKnown p ready → List Channel
  reported p [] k = []
  reported p ((fd, events) ∷ ready) k =
      record (object k.0.0) { revent = events } ∷ reported p ready k.1

  module _ (build : Build) where
    activate_lem :
        (p : Epoller) (ready : List (ℕ × Events)) (k : AllKnown p ready)
        → activate build object ready p ≡ ok (reported p ready k) p
    unfolding activate
    activate_lem p [] k = refl
    activate_lem p ((fd, events) ∷ ready) k = ground (arith, k.0.1, activate_lem p ready k.1)

    short_ordered : (cs : List Channel) → length cs ≤ 1 → ByPriority cs
    short_ordered [] h = tt
    short_ordered (c ∷ []) h = (tt, tt)
    short_ordered (c ∷ d ∷ cs) h = absurd (omega arith)

    -- Where every reported descriptor has a channel, poll returns exactly the channels of the
    -- reported descriptors, each with its events, those of high priority before those of normal
    -- priority, and leaves the registry as it is; for every sort that gives a permutation, ordered
    -- by the comparison that it is handed where this is a strict weak order.
    pub poll_lem :
        (sort : Sorter) (p : Epoller) (ready : List (ℕ × Events)) (k : AllKnown p ready)
        → (active : List Channel) × (poll build object sort.run (some ready) p ≡ ok active p)
          × Perm active (reported p ready k)
          × ByPriority active
    unfolding poll
    poll_lem sort p ready k = elim (Bool-cases (ltb 1 (length (reported p ready k)))) [
      | inl many ↦ (
        sort.run comes_before (reported p ready k),
        ground (arith, activate_lem p ready k, many),
        sort.run_perm comes_before (reported p ready k),
        IsOrdered-ByPriority _
            (sort.run_ordered comes_before (reported p ready k) comes_before-IsStrictWeak),
      )
      | inr few ↦ (
        reported p ready k,
        ground (arith, activate_lem p ready k, few),
        Perm.refl (reported p ready k),
        short_ordered (reported p ready k) (ltb→le _ _ few),
      )
    ]
