-- ===== src/Connection/Reading.antt =====
-- `readStringAll` and `extractString` of src/tcp/TcpConnection.cpp.
use simple_tcp.Prelude.{ℕ, ◌≡◌, refl, arith, ok, take, take_all}
use simple_tcp.Buffer.{TcpBuffer, size}
use simple_tcp.Buffer.Valid.{IsValid, contents}
use simple_tcp.Buffer.Advance.{Advanced}
use simple_tcp.Buffer.Queue.{size_lem, read_lem, extract_lem}
use simple_tcp.Channel.{Site}
use simple_tcp.Connection.{Conn, Callbacks, on_recv, read_all, extract}

module _ (site : Site) (cbs : Callbacks) where
  -- All bytes that wait are read, and stay.
  pub read_all_lem : (s : Conn) → IsValid s.recv → read_all site cbs s ≡ ok (contents s.recv) s
  unfolding read_all on_recv
  read_all_lem s v =
      rw
        (
          read_lem (size s.recv) v,
          take_all (size s.recv) (contents s.recv) (omega (arith, size_lem v)),
          read_all,
          on_recv,
        )
        refl

  -- The first bytes that wait are taken out.
  pub extract_conn :
      (n : ℕ) (s : Conn)
      → IsValid s.recv
      → (b : TcpBuffer) × (extract site cbs n s
          ≡ ok (take n (contents s.recv)) (record s { recv = b }))
        × Advanced n s.recv b
  unfolding extract on_recv
  extract_conn n s v =
      let e = extract_lem site.build n v in (e.0, rw (e.1, extract, on_recv) refl, e.2)
