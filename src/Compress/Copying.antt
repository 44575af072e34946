-- ===== src/Compress/Copying.antt =====
-- A coder that copies, in place of zlib, for the runs: it keeps to what the manual says.
use simple_tcp.Prelude.{
  ℕ, ◌+◌, ◌-◌, ◌≤◌, ◌≡◌, refl, ◌∙◌, Bool, true, false, leb, leb→le, le→leb, [], ◌++◌, some, length,
  take, drop, append-nil, take-append, length-append, arith,
}
use simple_tcp.Strings.{Text}
use simple_tcp.Compress.{
  Code, z_ok, z_stream_end, z_error, Flush, z_no_flush, z_finish, Stream, Filled, Coder, Zlib,
}
use simple_tcp.Compress.Manual.{IsCoder, IsDeflate, IsInflate, IsCompress, IsUncompress}

abbrev Copying : Type 0
Copying = Stream (Unit {0})

abbrev copied : Copying → Copying
copied st = record st {
  next_in = [];
  avail_out = st.avail_out - length st.next_in;
  written = st.written ++ st.next_in;
}

-- The whole input is copied where there is room for it.
abbrev copy_if : Bool → Copying → Code × Copying
copy_if true st = (z_stream_end, copied st)
copy_if false st = (z_error, st)

abbrev copy : Copying → Code × Copying
copy st = copy_if (leb (length st.next_in) st.avail_out) st

abbrev deflate_step : Flush → Copying → Code × Copying
deflate_step z_no_flush st = (z_ok, st)
deflate_step z_finish st = copy st

abbrev deflate_copy : Coder
deflate_copy = record {
  State = Unit {0};
  init = some tt;
  step = deflate_step;
  end = λ st. (z_ok, true);
}

abbrev inflate_copy : Coder
inflate_copy = record {
  State = Unit {0};
  init = some tt;
  step = λ f st. copy st;
  end = λ st. (z_ok, true);
}

abbrev copy_buffer_if : Bool → Text → Text → Filled
copy_buffer_if true dest src = record {
  code = z_ok;
  dest_len = length src;
  dest = src ++ drop (length src) dest;
}
copy_buffer_if false dest src = record { code = z_error; dest_len = 0; dest = dest }

abbrev copy_buffer : Text → ℕ → Text → Filled
copy_buffer dest n src = copy_buffer_if (leb (length src) n) dest src

abbrev pub copying : Zlib
copying = record {
  deflate = deflate_copy;
  inflate = inflate_copy;
  compress = copy_buffer;
  uncompress = copy_buffer;
}

-- The coding is the text.
abbrev pub IsCopy : Text → Text → Type 0
IsCopy src t = t ≡ src

copy_if-room :
    (b : Bool) (st : Copying)
    → leb (length st.next_in) st.avail_out ≡ b
    → length (copy_if b st).1.written + (copy_if b st).1.avail_out
      ≡ length st.written + st.avail_out
copy_if-room false st e = refl
copy_if-room true st e =
    omega (arith, length-append st.written st.next_in, leb→le (length st.next_in) st.avail_out e)

copy-room :
    (st : Copying)
    → length (copy st).1.written + (copy st).1.avail_out ≡ length st.written + st.avail_out
copy-room st = copy_if-room (leb (length st.next_in) st.avail_out) st refl

deflate_copy-IsCoder : IsCoder deflate_copy
deflate_copy-IsCoder = record { room = room; ends = λ st e. refl }
  where
    room :
        (f : Flush) (st : Copying)
        → length (deflate_step f st).1.written + (deflate_step f st).1.avail_out
          ≡ length st.written + st.avail_out
    room z_no_flush st = refl
    room z_finish st = copy-room st

inflate_copy-IsCoder : IsCoder inflate_copy
inflate_copy-IsCoder = record { room = λ f st. copy-room st; ends = λ st e. refl }

-- A stream that was given a text has written a part of it and has the rest before it.
abbrev Given : Text → Copying → Type 0
Given src st = st.written ++ st.next_in ≡ src

copy-Given : (b : Bool) (src : Text) (st : Copying) → Given src st → Given src (copy_if b st).1
copy-Given true src st g = append-nil (st.written ++ st.next_in) ∙ g
copy-Given false src st g = g

copy_done :
    (b : Bool) (st : Copying)
    → (copy_if b st).0 ≡ z_stream_end
    → (copy_if b st).1.written ≡ st.written ++ st.next_in
copy_done true st e = refl
copy_done false st e = absurd (ground (arith, e))

pub deflate_copy-IsDeflate : IsDeflate IsCopy deflate_copy
deflate_copy-IsDeflate = record {
  coder = deflate_copy-IsCoder;
  Given = Given;
  given_start = λ s src n e. refl;
  given_step = step;
  given_end = λ src st g e. copy_done (leb (length st.next_in) st.avail_out) st e ∙ g;
}
  where
    step : (f : Flush) (src : Text) (st : Copying) → Given src st → Given src (deflate_step f st).1
    step z_no_flush src st g = g
    step z_finish src st g = copy-Given (leb (length st.next_in) st.avail_out) src st g

pub inflate_copy-IsInflate : IsInflate IsCopy inflate_copy
inflate_copy-IsInflate = record {
  coder = inflate_copy-IsCoder;
  reads = λ s src t n e same room. rw (same, le→leb (length src) n room) (refl, refl);
  stays = λ st e. stays (leb (length st.next_in) st.avail_out) st e;
}
  where
    stays :
        (b : Bool) (st : Copying)
        → (copy_if b st).0 ≡ z_stream_end
        → ((copy (copy_if b st).1).0 ≡ z_stream_end)
          × ((copy (copy_if b st).1).1.written ≡ (copy_if b st).1.written)
    stays true st e =
        rw (le→leb 0 (st.avail_out - length st.next_in) (omega arith))
          (refl, append-nil (st.written ++ st.next_in))
    stays false st e = absurd (ground (arith, e))

pub copy_buffer-IsCompress : IsCompress IsCopy copy_buffer
copy_buffer-IsCompress dest src n h went = of_code (leb (length src) n) went
  where
    of_code :
        (b : Bool)
        → (copy_buffer_if b dest src).code ≡ z_ok
        → ((copy_buffer_if b dest src).dest_len ≤ length (copy_buffer_if b dest src).dest)
          × (take (copy_buffer_if b dest src).dest_len (copy_buffer_if b dest src).dest ≡ src)
    of_code true e = (
      omega (arith, length-append src (drop (length src) dest)),
      take-append src (drop (length src) dest),
    )
    of_code false e = absurd (ground (arith, e))

pub copy_buffer-IsUncompress : IsUncompress IsCopy copy_buffer
copy_buffer-IsUncompress dest src coded n h room same =
    rw (same, le→leb (length src) n room)
      (
        refl,
        omega (arith, length-append src (drop (length src) dest)),
        take-append src (drop (length src) dest),
      )
