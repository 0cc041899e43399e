-- ===== src/Tcp/Receive.antt =====
-- What src/tcp_ip_stack.c receives on a connection, and what the program reads of it.
use mathlib.Core.List.{append-nil, append_assoc}
use ro_dos.Array.Slots.{take-append}
use native.Mathlib.Decide.{dec_lt}
use ro_dos.Prelude.{
  ℕ, ◌+◌, ◌*◌, ◌/◌, ◌%◌, ◌^◌, ◌≤◌, ◌<◌, ◌≡◌, refl, sym, ap, ◌∙◌, ◌⊎◌, inl, inr, true, false, some,
  List, [], ◌∷◌, ◌++◌, arith, ltb, if◌then◌else◌, lt→ltb, Bool-cases, length, get_or, take, drop,
  length-append, length-take, length-drop, take-all,
}
use ro_dos.Tcp.{reply, Tcb, Sent, take_data, seg_len, hdr_len}

-- The bytes that have arrived, those that were read included.
abbrev pub stream : Tcb → List ℕ
stream t = take t.rx_len t.rx_buffer

-- The counters of the receive buffer are inside it.
pub record IsConsistent (t : Tcb) : Type 0 where
  pub buffer : length t.rx_buffer ≡ 16384
  pub room : t.rx_len < 16384
  pub read : t.rx_processed ≤ t.rx_len

-- The payload of a segment stands behind its header, whose length in words is the high half of byte 12.
abbrev pub payload_of : List ℕ → List ℕ
payload_of p = drop (get_or p 12 0 / 16 * 4) p

-- The header of a segment ends inside it, and its length fits an IP packet.
abbrev pub IsWellFormed : List ℕ → Type 0
IsWellFormed p = (hdr_len p ≤ length p) × (length p < 2 ^ 16)

-- What a segment adds to the stream of an established connection: its payload, if that leaves a byte
-- of the buffer free.
abbrev pub accepted : List ℕ → Tcb → List ℕ
accepted p t = if ltb (t.rx_len + length (payload_of p)) 16384 then payload_of p else []

seg_len-payload : (p : List ℕ) → IsWellFormed p → seg_len p ≡ length (payload_of p)
seg_len-payload p (h, l) = omega (arith, length-drop (hdr_len p) p)

pub empty_list : (xs : List ℕ) → length xs ≡ 0 → xs ≡ []
empty_list [] e = refl
empty_list (x ∷ xs) e = absurd (omega arith)

not_lt→ltb : (a b : ℕ) → ¬ (a < b) → ltb a b ≡ false
not_lt→ltb a b h = ground arith

-- An array after `x` is written over it at `n`.
abbrev written : List ℕ → List ℕ → ℕ → List ℕ
written b x n = take n b ++ (x ++ drop (n + length x) b)

module _ (b x : List ℕ) (n : ℕ) (inside : n + length x ≤ length b) where
  length-written : length (written b x n) ≡ length b
  length-written = omega (
    arith,
    length-append (take n b) (x ++ drop (n + length x) b),
    length-append x (drop (n + length x) b),
    length-take n b,
    length-drop (n + length x) b,
  )

  take-written : take (n + length x) (written b x n) ≡ take n b ++ x
  take-written =
      ap (take (n + length x)) (sym (append_assoc (take n b) x (drop (n + length x) b)))
      ∙ ap (λ k. take k ((take n b ++ x) ++ drop (n + length x) b))
          (omega (arith, length-append (take n b) x, length-take n b))
      ∙ take-append (take n b ++ x) (drop (n + length x) b)

module _ (p : List ℕ) (w : IsWellFormed p) (t : Tcb) (v : IsConsistent t) where
  abbrev with_data : Tcb
  with_data = record t {
    rx_buffer = written t.rx_buffer (payload_of p) t.rx_len;
    rx_len = t.rx_len + length (payload_of p);
    has_data = true;
    rcv_nxt = (t.rcv_nxt + length (payload_of p)) % 2 ^ 32;
  }

  abbrev body : List ℕ
  body = payload_of p

  take-seg_len : take (seg_len p) (drop (hdr_len p) p) ≡ body
  take-seg_len = take-all (seg_len p) body (omega (arith, seg_len-payload p w))

  data_fits :
      0 < length body
      → t.rx_len + length body < 16384
      → take_data p t ≡ some (with_data, reply 0x10 with_data ∷ [])
  unfolding take_data
  data_fits some_byte fits =
      let small : t.rx_len + length body < 2 ^ 32 = omega arith in
      rw (take-seg_len, seg_len-payload p w) (ground arith)

  data_dropped : (length body ≡ 0) ⊎ (16384 ≤ t.rx_len + length body) → take_data p t ≡ some (t, [])
  unfolding take_data
  data_dropped h =
      let short = length-drop (hdr_len p) p in
      rw (seg_len-payload p w) (ground (arith, h, short, v.room))

  with_data-IsConsistent : t.rx_len + length body < 16384 → IsConsistent with_data
  with_data-IsConsistent fits = record {
    buffer = length-written t.rx_buffer body t.rx_len (omega (arith, v.buffer)) ∙ v.buffer;
    room = fits;
    read = omega (arith, v.read);
  }

  nothing : length body ≡ 0 → accepted p t ≡ []
  nothing e =
      let none_left : body ≡ [] = empty_list body e in
      elim (Bool-cases (ltb (t.rx_len + length body) 16384)) [
        | inl f ↦ rw f none_left
        | inr f ↦ rw f refl
      ]

  -- The data of a well-formed segment never goes behind the buffer.
  pub take_data_lem :
      (u : Tcb) × (sent : List Sent) × (take_data p t ≡ some (u, sent))
      × IsConsistent u
      × (stream u ≡ stream t ++ accepted p t)
      × (u.rx_processed ≡ t.rx_processed)
      × (u.state ≡ t.state)
  take_data_lem = elim (dec_lt (t.rx_len + length body) 16384) [
    | no full ↦ (
      t,
      [],
      data_dropped (inr (omega arith)),
      v,
      rw (not_lt→ltb (t.rx_len + length body) 16384 full) (sym (append-nil (stream t))),
      refl,
      refl,
    )
    | yes fits ↦ elim (dec_lt 0 (length body)) [
      | yes some_byte ↦ (
        with_data,
        reply 0x10 with_data ∷ [],
        data_fits some_byte fits,
        with_data-IsConsistent fits,
        rw (lt→ltb (t.rx_len + length body) 16384 fits)
            (take-written t.rx_buffer body t.rx_len (omega (arith, v.buffer))),
        refl,
        refl,
      )
      | no empty ↦ (
        t,
        [],
        data_dropped (inl (omega arith)),
        v,
        rw (nothing (omega arith)) (sym (append-nil (stream t))),
        refl,
        refl,
      )
    ]
  ]
