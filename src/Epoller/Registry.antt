-- ===== src/Epoller/Registry.antt =====
-- The registry of src/net/Epoller.cpp: its map, its set and what the kernel was told agree.
use simple_tcp.Prelude.{
  ℕ, ◌≡◌, ◌≢◌, List, [], ◌∷◌, Bool, true, false, some, none, Option, arith, Build, ok, ◌==◌,
  if◌then◌else◌, lookup, insert_new, erase, remove, lookup-insert_new, lookup-erase, member-remove,
}
use simple_tcp.Epoller.Mask.{Events, no_events}
use simple_tcp.Epoller.{
  Channel, Ctl, ctl_add, ctl_mod, ctl_del, Epoller, has_channel, control, add_channel,
  remove_channel,
}

-- The mask that the kernel watches a descriptor for, from the calls that it accepted: `none` where
-- the descriptor is not in its interest list.
abbrev pub interest : ℕ → List Ctl → Option Events
interest fd [] = none
interest fd (ctl_add g m ∷ cs) = if g == fd then some m else interest fd cs
interest fd (ctl_mod g m ∷ cs) = if g == fd then some m else interest fd cs
interest fd (ctl_del g ∷ cs) = if g == fd then none else interest fd cs

module _ (build : Build) (ctl : Ctl → Bool) where
  pub control_lem :
      (c : Ctl) (p : Epoller)
      → ctl c ≡ true
      → control build ctl c p ≡ ok tt (record p { issued = c ∷ p.issued })
  unfolding control
  control_lem c p h = rw (h, control)

  -- Adding a channel that is not watched, under a descriptor that no channel has, when the kernel
  -- accepts: the channel is found by its address and by its descriptor, the kernel watches the
  -- descriptor for nothing yet, and no other channel or descriptor is affected.
  pub add_channel_lem :
      (c : Channel) (p : Epoller)
      → has_channel c.id p ≡ false
      → lookup c.fd p.channel_map ≡ none
      → ctl (ctl_add c.fd no_events) ≡ true
      → (p' : Epoller) × (add_channel build ctl c p ≡ ok tt p')
        × (has_channel c.id p' ≡ true)
        × (lookup c.fd p'.channel_map ≡ some c.id)
        × (interest c.fd p'.issued ≡ some no_events)
        × ((id : ℕ) → id ≢ c.id → has_channel id p' ≡ has_channel id p)
        × ((fd : ℕ)
            → fd ≢ c.fd
            → (lookup fd p'.channel_map ≡ lookup fd p.channel_map)
              × (interest fd p'.issued ≡ interest fd p.issued))
  unfolding add_channel has_channel
  add_channel_lem c p fresh free accepted = (
    record p {
      channel_map = insert_new c.fd c.id p.channel_map;
      channel_set = c.id ∷ p.channel_set;
      issued = ctl_add c.fd no_events ∷ p.issued;
    },
    ground (arith, control_lem (ctl_add c.fd no_events) p accepted),
    ground arith,
    ground (arith, lookup-insert_new c.fd c.fd c.id p.channel_map),
    ground arith,
    λ id ne. ground arith,
    λ fd ne. (ground (arith, lookup-insert_new c.fd fd c.id p.channel_map), ground arith),
  )

  -- Removing a watched channel, when the kernel accepts: it is found neither by its address nor by
  -- its descriptor, the kernel no longer watches the descriptor, and nothing else is affected.
  pub remove_channel_lem :
      (c : Channel) (p : Epoller)
      → has_channel c.id p ≡ true
      → ctl (ctl_del c.fd) ≡ true
      → (p' : Epoller) × (remove_channel build ctl c p ≡ ok tt p')
        × (has_channel c.id p' ≡ false)
        × (lookup c.fd p'.channel_map ≡ none)
        × (interest c.fd p'.issued ≡ none)
        × ((id : ℕ) → id ≢ c.id → has_channel id p' ≡ has_channel id p)
        × ((fd : ℕ)
            → fd ≢ c.fd
            → (lookup fd p'.channel_map ≡ lookup fd p.channel_map)
              × (interest fd p'.issued ≡ interest fd p.issued))
  unfolding remove_channel has_channel
  remove_channel_lem c p watched accepted = (
    record p {
      channel_map = erase c.fd p.channel_map;
      channel_set = remove c.id p.channel_set;
      issued = ctl_del c.fd ∷ p.issued;
    },
    ground (arith, control_lem (ctl_del c.fd) p accepted),
    ground (arith, member-remove c.id c.id p.channel_set),
    ground (arith, lookup-erase c.fd c.fd p.channel_map),
    ground arith,
    λ id ne. ground (arith, member-remove c.id id p.channel_set),
    λ fd ne. (ground (arith, lookup-erase c.fd fd p.channel_map), ground arith),
  )
