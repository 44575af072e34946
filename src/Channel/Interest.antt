-- ===== src/Channel/Interest.antt =====
-- What the kernel watches a descriptor for follows the mask of its channel (src/net/Channel.cpp).
use simple_tcp.Prelude.{
  ℕ, ◌≡◌, ◌≢◌, refl, sym, ap, ◌∙◌, Bool-cases, inl, inr, ◌∷◌, true, false, some, arith, ok, M,
}
use simple_tcp.Epoller.Mask.{Events, no_events}
use simple_tcp.Epoller.{ctl_mod, has_channel, update_channel}
use simple_tcp.Epoller.Registry.{interest, control_lem}
use simple_tcp.Channel.{
  Site, Port, is_reading, is_writing, on_poller, set_event, update, enable_read, enable_write,
  disable_read, disable_write, disable_all,
}

-- Two masks ask for the same input and output. Errors are reported whether asked for or not.
abbrev pub Agrees : Events → Events → Type 0
Agrees m e = (m.readable ≡ e.readable) × (m.urgent ≡ e.urgent) × (m.writable ≡ e.writable)

-- The channel is registered, the kernel watches its descriptor for what the channel asks for, and
-- the two flags of CHANNEL_READ_EVENT are set or clear together.
pub record IsWatched (s : Port) : Type 0 where
  pub known : has_channel s.channel.id s.poller ≡ true
  pub mask : Events
  pub watched : interest s.channel.fd s.poller.issued ≡ some mask
  pub agrees : Agrees mask s.channel.event
  pub paired : s.channel.event.readable ≡ s.channel.event.urgent

-- The five calls that change the interest.
pub data Switch : Type 0 where
  read_on write_on read_off write_off all_off : Switch

module _ (site : Site) where
  abbrev pub switch : Switch → M Port (Unit {0})
  switch read_on = enable_read site
  switch write_on = enable_write site
  switch read_off = disable_read site
  switch write_off = disable_write site
  switch all_off = disable_all site

-- The mask that each is to leave.
abbrev pub target : Switch → Events → Events
target read_on e = record e { readable = true; urgent = true }
target write_on e = record e { writable = true }
target read_off e = record e { readable = false; urgent = false }
target write_off e = record e { writable = false }
target all_off e = no_events

target-paired :
    (w : Switch) (e : Events) → e.readable ≡ e.urgent → (target w e).readable ≡ (target w e).urgent
target-paired read_on e h = refl
target-paired read_off e h = refl
target-paired all_off e h = refl
target-paired write_on e h = h
target-paired write_off e h = h

-- What a call leaves.
pub record Switched (w : Switch) (s s' : Port) : Type 0 where
  pub watched : IsWatched s'
  pub channel : s'.channel ≡ (let c = s.channel in record c { event = target w c.event })
  pub same_map : s'.poller.channel_map ≡ s.poller.channel_map
  pub same_set : s'.poller.channel_set ≡ s.poller.channel_set
  pub others :
      (fd : ℕ) → fd ≢ s.channel.fd → interest fd s'.poller.issued ≡ interest fd s.poller.issued

module _ (site : Site) (inside : site.in_thread ≡ true) where
  -- an update that the kernel accepts
  abbrev refreshed : Port → Port
  refreshed s =
      let p = s.poller in
      record s { poller = record p { issued = ctl_mod s.channel.fd s.channel.event ∷ p.issued } }

  update_lem :
      (s : Port)
      → has_channel s.channel.id s.poller ≡ true
      → site.ctl (ctl_mod s.channel.fd s.channel.event) ≡ true
      → update site s ≡ ok tt (refreshed s)
  unfolding update update_channel on_poller
  update_lem s known accepted = ground (
    arith,
    control_lem site.build site.ctl (ctl_mod s.channel.fd s.channel.event) s.poller accepted,
  )

  stays :
      (w : Switch) (s : Port)
      → IsWatched s
      → target w s.channel.event ≡ s.channel.event
      → Switched w s s
  stays w s v same = record {
    watched = v;
    channel = ap (λ e. let c = s.channel in record c { event = e }) (sym same);
    same_map = refl;
    same_set = refl;
    others = λ fd ne. refl;
  }

  updated :
      (w : Switch) (s : Port)
      → IsWatched s
      → Switched w s (refreshed (set_event (target w s.channel.event) s))
  unfolding has_channel
  updated w s v = record {
    watched = record {
      known = v.known;
      mask = target w s.channel.event;
      watched = ground arith;
      agrees = (refl, refl, refl);
      paired = target-paired w s.channel.event v.paired;
    };
    channel = refl;
    same_map = refl;
    same_set = refl;
    others = λ fd ne. ground arith;
  }

  -- The three ways that a call can go.
  by_update :
      (w : Switch) (s : Port)
      → IsWatched s
      → site.ctl (ctl_mod s.channel.fd (target w s.channel.event)) ≡ true
      → switch site w s ≡ update site (set_event (target w s.channel.event) s)
      → (s' : Port) × (switch site w s ≡ ok tt s') × Switched w s s'
  unfolding has_channel
  by_update w s v accepted e = (
    refreshed (set_event (target w s.channel.event) s),
    e ∙ update_lem (set_event (target w s.channel.event) s) v.known accepted,
    updated w s v,
  )

  -- Each of the five calls, in the loop's thread, on a watched channel whose update the kernel
  -- accepts, succeeds, leaves
  -- the channel with the mask that the call is for and still watched for exactly that, and does
  -- nothing to the registry or to other descriptors.
  pub switch_lem :
      (w : Switch) (s : Port)
      → IsWatched s
      → site.ctl (ctl_mod s.channel.fd (target w s.channel.event)) ≡ true
      → (s' : Port) × (switch site w s ≡ ok tt s') × Switched w s s'
  unfolding enable_read enable_write disable_read disable_write disable_all
  switch_lem read_on s v accepted = elim (Bool-cases (is_reading s.channel)) [
    | inl set ↦ (s, ground (arith, set), stays read_on s v (ground (arith, set, v.paired)))
    | inr clear ↦ by_update read_on s v accepted (ground (arith, clear))
  ]
  switch_lem write_on s v accepted = elim (Bool-cases (is_writing s.channel)) [
    | inl set ↦ (s, ground (arith, set), stays write_on s v (ground (arith, set)))
    | inr clear ↦ by_update write_on s v accepted (ground (arith, clear))
  ]
  switch_lem read_off s v accepted = elim (Bool-cases (is_reading s.channel)) [
    | inl set ↦ by_update read_off s v accepted (ground (arith, set))
    | inr clear ↦ (s, ground (arith, clear), stays read_off s v (ground (arith, clear, v.paired)))
  ]
  switch_lem write_off s v accepted = elim (Bool-cases (is_writing s.channel)) [
    | inl set ↦ by_update write_off s v accepted (ground (arith, set))
    | inr clear ↦ (s, ground (arith, clear), stays write_off s v (ground (arith, clear)))
  ]
  switch_lem all_off s v accepted = by_update all_off s v accepted refl
