-- ===== src/Icmp/Receive.antt =====
-- Which packets are taken for the reply, and when the loop ends.
use blackbox_exporter_with_g.Common.{
  ℕ, String, ◌≡◌, ◌↔◌, ◌⊎◌, refl, ap, inl, inr, Bool, true, false, Option, none, List, [], ◌∷◌,
  ◌++◌, arith, All, Bool-cases, if◌then◌else◌, ◌==◌, ℕ_eq, string_eq, eq_iff,
}
use blackbox_exporter_with_g.Common.Text.{Bytes, bytes_eq, bytes_beq_iff}
use blackbox_exporter_with_g.Utils.{Family, ip4, ip6}
use blackbox_exporter_with_g.Icmp.{
  Received, packet, timeout, failure, matching, comparable, is_reply, receive,
}

-- A packet with the header of an echo message: its type, code, checksum and id, and the rest, which
-- is its sequence number and its data.
pub record Echo : Type 0 where
  pub type : ℕ
  pub code : ℕ
  pub checksum : ℕ × ℕ
  pub id : ℕ × ℕ
  pub rest : Bytes

abbrev pub bytes_of : Echo → Bytes
bytes_of e = e.type ∷ e.code ∷ e.checksum.0 ∷ e.checksum.1 ∷ e.id.0 ∷ e.id.1 ∷ e.rest

-- The fields that have to agree: not the id where the kernel sets it, and not the checksum where
-- the kernel computes it.
pub record Agrees (id_unknown : Bool) (family : Family) (wanted got : Echo) : Type 0 where
  pub type : got.type ≡ wanted.type
  pub code : got.code ≡ wanted.code
  pub rest : got.rest ≡ wanted.rest
  pub id : id_unknown ≡ false → (got.id.0 ≡ wanted.id.0) × (got.id.1 ≡ wanted.id.1)
  pub checksum :
      id_unknown ≡ false
      → family ≡ ip4
      → (got.checksum.0 ≡ wanted.checksum.0) × (got.checksum.1 ≡ wanted.checksum.1)

-- What is waited for: zeros, where the fields are not compared.
pub record IsWanted (id_unknown : Bool) (family : Family) (wanted : Echo) : Type 0 where
  pub id : id_unknown ≡ true → (wanted.id.0 ≡ 0) × (wanted.id.1 ≡ 0)
  pub checksum :
      (id_unknown ≡ true) ⊎ (family ≡ ip6) → (wanted.checksum.0 ≡ 0) × (wanted.checksum.1 ≡ 0)

same_iff :
    (id_unknown : Bool) (family : Family) (wanted got : Echo)
    → IsWanted id_unknown family wanted
    → ((comparable id_unknown family (bytes_of got) == bytes_of wanted) ≡ true)
      ↔ Agrees id_unknown family wanted got
unfolding comparable
same_iff true family wanted got w =
    let (a, b) = w.id refl in
    let (c, d) = w.checksum (inl refl) in
    let r = bytes_beq_iff got.rest wanted.rest in
    (
      λ h. record {
        type = ground arith;
        code = ground arith;
        rest = ground arith;
        id = λ n. cc;
        checksum = λ n f. cc;
      },
      λ g. (let t = g.type in let k = g.code in let q = g.rest in ground arith),
    )
same_iff false ip4 wanted got w =
    let r = bytes_beq_iff got.rest wanted.rest in
    (
      λ h. record {
        type = ground arith;
        code = ground arith;
        rest = ground arith;
        id = λ n. ground arith;
        checksum = λ n f. ground arith;
      },
      λ g.
          (let t = g.type in
            let k = g.code in
            let q = g.rest in let i = g.id refl in let j = g.checksum refl refl in ground arith),
    )
same_iff false ip6 wanted got w =
    let (c, d) = w.checksum (inr refl) in
    let r = bytes_beq_iff got.rest wanted.rest in
    (
      λ h. record {
        type = ground arith;
        code = ground arith;
        rest = ground arith;
        id = λ n. ground arith;
        checksum = λ n f. cc;
      },
      λ g.
          (let t = g.type in let k = g.code in let q = g.rest in let i = g.id refl in ground arith),
    )

module _ (id_unknown : Bool) (family : Family) (dst : String) (wb : Bytes) where
  -- Nothing that ends the loop.
  abbrev pub Passes : Received → Type 0
  Passes (packet rb peer hop_limit) = is_reply id_unknown family dst wb rb peer ≡ false
  Passes timeout = ⊥
  Passes failure = Unit {0}

  -- The first packet that is taken for the reply, before any timeout.
  pub record Answered (flag : Bool) (received : List Received) (hop_limit : Option ℕ) : Type 0 where
    pub before : List Received
    pub rb : Bytes
    pub peer : String
    pub control : Option ℕ
    pub later : List Received
    pub split : received ≡ before ++ packet rb peer control ∷ later
    pub passed : All Passes before
    pub reply : is_reply id_unknown family dst wb rb peer ≡ true
    pub measured : hop_limit ≡ (if flag then control else none)

  receive-Answered :
      (flag : Bool) (received : List Received) (hop_limit : Option ℕ)
      → receive id_unknown family dst wb flag received ≡ matching hop_limit
      → Answered flag received hop_limit
  unfolding receive
  receive-Answered flag [] hop_limit e = cc
  receive-Answered flag (timeout ∷ rest) hop_limit e = cc
  receive-Answered flag (failure ∷ rest) hop_limit e =
      let a = receive-Answered flag rest hop_limit e in
      record {
        before = failure ∷ a.before;
        rb = a.rb;
        peer = a.peer;
        control = a.control;
        later = a.later;
        split = ap (λ l. failure ∷ l) a.split;
        passed = (tt, a.passed);
        reply = a.reply;
        measured = a.measured;
      }
  receive-Answered flag (packet rb peer control ∷ rest) hop_limit e =
      elim (Bool-cases (is_reply id_unknown family dst wb rb peer)) [
        | inl hit ↦ record {
          before = [];
          rb = rb;
          peer = peer;
          control = control;
          later = rest;
          split = refl;
          passed = tt;
          reply = hit;
          measured = ground arith;
        }
        | inr miss ↦
            (let a = receive-Answered flag rest hop_limit (rw miss at e) in
              record {
                before = packet rb peer control ∷ a.before;
                rb = a.rb;
                peer = a.peer;
                control = a.control;
                later = a.later;
                split = ap (λ l. packet rb peer control ∷ l) a.split;
                passed = (miss, a.passed);
                reply = a.reply;
                measured = a.measured;
              })
      ]

  receive-hit :
      (flag : Bool) (before later : List Received) (rb : Bytes) (peer : String) (control : Option ℕ)
      → All Passes before
      → is_reply id_unknown family dst wb rb peer ≡ true
      → receive id_unknown family dst wb flag (before ++ packet rb peer control ∷ later)
        ≡ matching (if flag then control else none)
  unfolding receive
  receive-hit flag [] later rb peer control p hit = rw hit refl
  receive-hit flag (timeout ∷ before) later rb peer control p hit = absurd p.0
  receive-hit flag (failure ∷ before) later rb peer control p hit =
      receive-hit flag before later rb peer control p.1 hit
  receive-hit flag (packet rb' peer' control' ∷ before) later rb peer control p hit =
      rw (p.0) (receive-hit flag before later rb peer control p.1 hit)

  -- The loop ends with a reply exactly if one arrives before the deadline's timeout, and then with
  -- the first one, with its hop limit if that is to be had: errors of the socket and the packets of
  -- others, or of other requests, are passed over.
  pub receive_iff :
      (flag : Bool) (received : List Received) (hop_limit : Option ℕ)
      → (receive id_unknown family dst wb flag received ≡ matching hop_limit)
        ↔ Answered flag received hop_limit
  receive_iff flag received hop_limit = (
    receive-Answered flag received hop_limit,
    λ a.
        let hit = receive-hit flag a.before a.later a.rb a.peer a.control a.passed a.reply in
        rw (a.split, a.measured) hit,
  )

-- A packet is taken for the reply exactly if it comes from the target, and its type, its code, its
-- sequence number and its data are those of the request's reply; and its id and its checksum are,
-- except where the kernel sets the id, or computes the checksum, which are then not compared.
pub is_reply_iff :
    (id_unknown : Bool) (family : Family) (dst peer : String) (wanted got : Echo)
    → IsWanted id_unknown family wanted
    → (is_reply id_unknown family dst (bytes_of wanted) (bytes_of got) peer ≡ true)
      ↔ ((peer ≡ dst) × Agrees id_unknown family wanted got)
unfolding is_reply
is_reply_iff id_unknown family dst peer wanted got w =
    let a = same_iff id_unknown family wanted got w in
    (
      λ h. (ground (arith, eq_iff peer dst), a.0 ground arith),
      λ (p, g). (let q = a.1 g in ground (arith, eq_iff peer dst)),
    )
