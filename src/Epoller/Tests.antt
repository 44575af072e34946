-- ===== src/Epoller/Tests.antt =====
-- Runs of Epoller, and its theorems at small registries.
use simple_tcp.Prelude.{
  ℕ, ◌≡◌, refl, List, [], ◌∷◌, Bool, true, some, none, debug_build, release_build, Bool-cases, inl,
  inr, false, if◌then◌else◌, ok, abort, fault, lookup,
}
use mathlib.Core.List.{Perm}
use mathlib.Core.List.Perm
use simple_tcp.Epoller.Mask.{Events, no_events}
use simple_tcp.Epoller.{
  Channel, Epoller, normal, high, Ctl, ctl_add, has_channel, add_channel, control, activate, poll,
}
use simple_tcp.Epoller.Poll.{
  NoneBefore, IsOrdered, IsStrictWeak, ByPriority, Sorter, AllKnown, reported, poll_lem,
}

-- Insertion before the first channel that does not come before it.
module _ (less : Channel → Channel → Bool) where
  abbrev place : Channel → List Channel → List Channel
  place c [] = c ∷ []
  place c (d ∷ ds) = let rest = place c ds in if less d c then d ∷ rest else c ∷ d ∷ ds

  abbrev sorted : List Channel → List Channel
  sorted [] = []
  sorted (c ∷ cs) = place c (sorted cs)

  place_perm : (c : Channel) (cs : List Channel) → Perm (place c cs) (c ∷ cs)
  place_perm c [] = Perm.refl _
  place_perm c (d ∷ ds) = elim (Bool-cases (less d c)) [
    | inl e ↦ rw e (Perm.trans (Perm.cons d (place_perm c ds)) (Perm.swap c d ds))
    | inr e ↦ rw e (Perm.refl _)
  ]

  sorted_perm : (cs : List Channel) → Perm (sorted cs) cs
  sorted_perm [] = Perm.refl _
  sorted_perm (c ∷ cs) = Perm.trans (place_perm c (sorted cs)) (Perm.cons c (sorted_perm cs))

  place-NoneBefore :
      (b c : Channel) (cs : List Channel)
      → less c b ≡ false
      → NoneBefore less b cs
      → NoneBefore less b (place c cs)
  place-NoneBefore b c [] e h = (e, tt)
  place-NoneBefore b c (d ∷ ds) e h = elim (Bool-cases (less d c)) [
    | inl f ↦ rw f (h.0, place-NoneBefore b c ds e h.1)
    | inr f ↦ rw f (e, h)
  ]

  module _ (w : IsStrictWeak less) where
    NoneBefore-trans :
        (c d : Channel) (ds : List Channel)
        → less d c ≡ false
        → NoneBefore less d ds
        → NoneBefore less c ds
    NoneBefore-trans c d [] e h = tt
    NoneBefore-trans c d (b ∷ bs) e h =
        (w.negatively_transitive c d b e h.0, NoneBefore-trans c d bs e h.1)

    place-IsOrdered :
        (c : Channel) (cs : List Channel) → IsOrdered less cs → IsOrdered less (place c cs)
    place-IsOrdered c [] h = (tt, tt)
    place-IsOrdered c (d ∷ ds) h = elim (Bool-cases (less d c)) [
      | inl e ↦ rw e (place-NoneBefore d c ds (w.asymmetric d c e) h.0, place-IsOrdered c ds h.1)
      | inr e ↦ rw e ((e, NoneBefore-trans c d ds e h.0), h)
    ]

    sorted-IsOrdered : (cs : List Channel) → IsOrdered less (sorted cs)
    sorted-IsOrdered [] = tt
    sorted-IsOrdered (c ∷ cs) = place-IsOrdered c (sorted cs) (sorted-IsOrdered cs)

sorter : Sorter
sorter = record {
  run = sorted;
  run_perm = sorted_perm;
  run_ordered = λ less cs w. sorted-IsOrdered less w cs;
}

-- channel 70 of descriptor 7, of normal priority, and channel 80 of descriptor 8, of high priority
abbrev slow : Channel
slow = record { id = 70; fd = 7; event = no_events; revent = no_events; priority = normal }

abbrev fast : Channel
fast = record { id = 80; fd = 8; event = no_events; revent = no_events; priority = high }

abbrev object : ℕ → Channel
object id = elim (lookup id ((80, fast) ∷ [])) [ none ↦ slow | some c ↦ c ]

abbrev accepting : Ctl → Bool
accepting c = true

-- both are watched
abbrev pair : Epoller
pair = record {
  channel_map = (7, 70) ∷ (8, 80) ∷ [];
  channel_set = 80 ∷ 70 ∷ [];
  issued = ctl_add 8 no_events ∷ ctl_add 7 no_events ∷ [];
}

abbrev only_slow : Epoller
only_slow = record {
  channel_map = (7, 70) ∷ [];
  channel_set = 70 ∷ [];
  issued = ctl_add 7 no_events ∷ [];
}

second_added : add_channel debug_build accepting fast only_slow ≡ ok tt pair
unfolding add_channel control has_channel
second_added = refl

double_add_aborts : add_channel debug_build accepting slow only_slow ≡ abort
unfolding add_channel has_channel
double_add_aborts = refl

unknown_descriptor_faults :
    poll release_build object sorted (some ((9, no_events) ∷ [])) only_slow ≡ fault
unfolding poll activate
unknown_descriptor_faults = refl

abbrev ready : List (ℕ × Events)
ready = (7, no_events) ∷ (8, no_events) ∷ []

known : AllKnown pair ready
known = ((70, refl), ((80, refl), tt))

poll_lem_example :
    (active : List Channel) × (poll debug_build object sorter.run (some ready) pair
      ≡ ok active pair)
    × Perm active (reported object pair ready known)
    × ByPriority active
poll_lem_example = poll_lem object debug_build sorter pair ready known
