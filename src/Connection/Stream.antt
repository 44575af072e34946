-- ===== src/Connection/Stream.antt =====
-- The bytes of a connection over a whole history of sends and writes (src/tcp/TcpConnection.cpp).
use simple_tcp.Prelude.{
  ℕ, suc, ◌+◌, ◌*◌, ◌≤◌, ◌<◌, ◌≡◌, sym, ap, ◌∙◌, subst, List, [], ◌++◌, append-nil, append_assoc,
  true, not, some, none, arith, Outcome, ok, length, ◌⊎◌, inl, take, take-append-drop, ne→==,
}
use simple_tcp.Buffer.Memory.{max_size}
use simple_tcp.Buffer.Valid.{contents}
use simple_tcp.Epoller.{Ctl}
use simple_tcp.Channel.{Site, Port, is_writing}
use simple_tcp.Connection.{Conn, Callbacks, handle_write, send_in_loop}
use simple_tcp.Connection.Sending.{IsLive, Submitted, send_in_loop_lem}
use simple_tcp.Connection.Writing.{Written, handle_write_lem}

-- A live connection that asks to write whenever bytes wait.
pub record IsAttentive (s : Conn) : Type 0 where
  pub port : Port
  pub live : IsLive port s
  pub asks : 0 < length (contents s.send) → is_writing port.channel ≡ true

-- The bytes that left, and behind them those that wait.
abbrev pub stream : Conn → List ℕ
stream s = s.sent ++ contents s.send

module _ (site : Site) (cbs : Callbacks) where
  -- One call in the loop's thread that returned: a send of bytes that the buffer can take, or a
  -- write event at which the kernel took a byte or more of those offered.
  pub data Step (s : Conn) : List ℕ → Conn → Type 0 where
    submit :
        (bytes : List ℕ) (s' : Conn)
        → length bytes * 2 ≤ max_size
        → (s.send.write_pos + length bytes ≤ length s.send.buffer)
          ⊎ (s.send.write_pos ≤ length bytes)
        → send_in_loop site cbs bytes s ≡ ok tt s'
        → Step s bytes s'
    write_event :
        (n err : ℕ) (s' : Conn)
        → suc n ≤ length (contents s.send)
        → handle_write site cbs (some (suc n)) err s ≡ ok tt s'
        → Step s [] s'

  -- A history, with the bytes that were sent in it.
  pub data Run (s : Conn) : List ℕ → Conn → Type 0 where
    here : Run s [] s
    next :
        {bytes more : List ℕ} {t u : Conn} → Run s bytes t → Step t more u → Run s (bytes ++ more) u

  module _ (inside : site.in_thread ≡ true) (accepts : (c : Ctl) → site.ctl c ≡ true)
      (no_mark : cbs.on_high_water_mark ≡ none) (no_complete : cbs.on_write_complete ≡ none) where
    same_end : {s' s'' : Conn} → ◌≡◌ {A = Outcome Conn (Unit {0})} (ok tt s') (ok tt s'') → s' ≡ s''
    same_end e = cc

    -- what one call keeps and adds
    record Kept (s : Conn) (bytes : List ℕ) (s' : Conn) : Type 0 where
      attentive : IsAttentive s'
      grows : stream s' ≡ stream s ++ bytes

    submitted : (bytes : List ℕ) (s s' : Conn) → Submitted bytes s s' → Kept s bytes s'
    submitted bytes s s' d = record {
      attentive = record { port = d.new_port; live = d.live; asks = λ _. d.writing };
      grows =
          ap (λ xs. xs ++ contents s'.send) d.same_sent
          ∙ ap (λ xs. s.sent ++ xs) d.waiting
          ∙ sym (append_assoc s.sent (contents s.send) bytes);
    }

    written : (n : ℕ) (s s' : Conn) → Written n s s' → Kept s [] s'
    written n s s' d = record {
      attentive = record {
        port = d.new_port;
        live = d.live;
        asks = λ h. d.writing ∙ ap not (ne→== (length (contents s'.send)) 0 (omega arith));
      };
      grows =
          ap (λ xs. xs ++ contents s'.send) d.out
          ∙ append_assoc s.sent (take n (contents s.send)) (contents s'.send)
          ∙ ap (λ xs. s.sent ++ (take n (contents s.send) ++ xs)) d.waiting
          ∙ ap (λ xs. s.sent ++ xs) (take-append-drop n (contents s.send))
          ∙ sym (append-nil (stream s));
    }

    step-Kept : {s s' : Conn} {bytes : List ℕ} → IsAttentive s → Step s bytes s' → Kept s bytes s'
    step-Kept {s = s} a (submit bytes s' small fits e) =
        let l =
          send_in_loop_lem site cbs inside bytes s a.port a.live small fits (inl no_mark)
            (accepts _) in
        subst (λ t. Kept s bytes t) (same_end (sym l.1 ∙ e)) (submitted bytes s l.0 l.2)
    step-Kept {s = s} a (write_event n err s' offered e) =
        let l =
          handle_write_lem site cbs inside n err s a.port a.live (a.asks (omega arith)) offered
            no_complete (accepts _) in
        subst (λ t. Kept s [] t) (same_end (sym l.1 ∙ e)) (written (suc n) s l.0 l.2)

    -- Over any history of a live connection in its loop's thread, with epoll_ctl succeeding and no
    -- callbacks for the high-water mark and the end of writing, that consists of sends that
    -- returned and of write events at which ::write took one byte or more of those offered, where
    -- the bytes of each send are at most half the largest size of a vector and fit behind the write
    -- position of the buffer or are at least as many as that position: the bytes that left followed
    -- by those that wait are what was there before followed by all bytes sent since, in order; and
    -- whenever bytes wait, the channel asks to write.
    pub Run-stream :
        {s s' : Conn} {bytes : List ℕ}
        → IsAttentive s
        → Run s bytes s'
        → IsAttentive s' × (stream s' ≡ stream s ++ bytes)
    Run-stream {s = s} a here = (a, sym (append-nil (stream s)))
    Run-stream {s = s} a (next {bytes = bytes} {more = more} r st) =
        let before = Run-stream a r in
        let k = step-Kept before.0 st in
        (k.attentive, k.grows ∙ ap (λ xs. xs ++ more) before.1 ∙ append_assoc (stream s) bytes more)
