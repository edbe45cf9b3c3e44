-- ===== src/Icmp/Probe.antt =====
-- `ProbeICMP`: the socket, the request and the reply. The operating system is `os`; what the sockets
-- do is a parameter. The deferred closing of the sockets is left out.
pub mod Verdict
pub mod Panics
mod Tests
use blackbox_exporter_with_g.Common.{
  ℕ, ◌+◌, String, Bool, true, false, not, ◌&&◌, ◌||◌, Option, none, some, List, [], ◌∷◌, length,
  if◌then◌else◌, ◌==◌, string_eq,
}
use blackbox_exporter_with_g.Common.Int.{ℤ, pos, ltb_ℤ}
use blackbox_exporter_with_g.Common.Net.{Ip}
use blackbox_exporter_with_g.Common.Text.{Bytes, codes, bytes_eq}
use blackbox_exporter_with_g.Common.Trace.{Run, pure, leave, emit, ◌>>=◌, ◌>>◌}
use blackbox_exporter_with_g.Config.Types.{IcmpProbe}
use blackbox_exporter_with_g.Config.Defaults.{default_icmp_ttl}
use blackbox_exporter_with_g.Metrics.{
  Event, register, set, timed, Outcome, returned, panicked, fail, require, expect, log,
}
use blackbox_exporter_with_g.Utils.{Family, ip4, ip6, Resolver, is_v4, choose_protocol, resolved}
use blackbox_exporter_with_g.Icmp.{
  Message, payload, request_type, reply_type, wanted_reply, Received, Reply, matching, timed_out,
  receive, get_icmp_sequence,
}

-- The networks that are listened on. `raw` is the connection of `ipv4.NewRawConn`.
pub data Socket : Type 0 where
  udp4 udp6 ip4_icmp ip6_icmp raw : Socket

-- What is written: to a packet connection, with the TTL that has been set, if any; or with a header
-- of its own, with "don't fragment" and no options.
pub data Sent : Type 0 where
  to_conn : Socket → Option ℤ → String → Bytes → Sent
  to_raw : ℤ → ℕ → Ip → Ip → Bytes → Sent

-- What the probe takes from the operating system and from other libraries.
pub record Library : Type 0 where
  pub resolver : Resolver
  pub parse_ip : String → Option Ip
  -- `String` of an address, and of the destination on a privileged socket or not
  pub ip_text : Ip → Bytes
  pub dst_text : Bool → Ip → String
  -- whether `ListenPacket`, or the making of the raw connection, succeeds
  pub listen : Socket → Ip → Bool
  -- whether the control message with the hop limit can be had
  pub control : Socket → Bool
  pub marshal : Message → Option Bytes
  pub write : Sent → Bool
  pub set_read_deadline : Bool
  -- what arrives on the socket after the packet is sent
  pub received : Sent → List Received

pub record Setup : Type 0 where
  pub family : Family
  pub socket : Socket
  pub src : Ip
  pub privileged : Bool
  pub hop_limit_flag_set : Bool

abbrev pub family_of : Ip → Family
family_of ip = if is_v4 ip then ip4 else ip6

-- Only an unprivileged socket has the network "udp".
abbrev pub is_privileged : Socket → Bool
is_privileged udp4 = false
is_privileged udp6 = false
is_privileged ip4_icmp = true
is_privileged ip6_icmp = true
is_privileged raw = true

abbrev pub is_raw : Socket → Bool
is_raw raw = true
is_raw other = false

-- ::
abbrev unspecified : Family → Ip
unspecified ip6 = 0 ∷ 0 ∷ 0 ∷ 0 ∷ 0 ∷ 0 ∷ 0 ∷ 0 ∷ 0 ∷ 0 ∷ 0 ∷ 0 ∷ 0 ∷ 0 ∷ 0 ∷ 0 ∷ []
unspecified ip4 = 0 ∷ 0 ∷ 0 ∷ 0 ∷ 0 ∷ 0 ∷ 0 ∷ 0 ∷ 0 ∷ 0 ∷ 255 ∷ 255 ∷ 0 ∷ 0 ∷ 0 ∷ 0 ∷ []

module _ (lib : Library) (os : String) (icmp_id : ℕ) (target : Bytes) (c : IcmpProbe) where
  abbrev pub try_unprivileged : Bool
  try_unprivileged = os == "darwin" || os == "linux"

  -- An unprivileged socket if there can be one, and a privileged one if not.
  pub either_socket : Socket → Socket → Ip → Option Socket
  either_socket unprivileged privileged src =
      if try_unprivileged && lib.listen unprivileged src
      then some unprivileged
      else if lib.listen privileged src
      then some privileged
      else none

  -- With "don't fragment" two calls open the socket: the network's and the raw connection's.
  pub socket_for : Family → Ip → Option Socket
  unfolding either_socket
  socket_for ip6 src = either_socket udp6 ip6_icmp src
  socket_for ip4 src =
      if c.dont_fragment
      then if lib.listen ip4_icmp src && lib.listen raw src then some raw else none
      else either_socket udp4 ip4_icmp src

  pub source_of : Family → Run Event Outcome Ip
  source_of family =
      if c.source_ip_address == ""
      then pure (unspecified family)
      else expect (lib.parse_ip c.source_ip_address)

  pub setup : Ip → Run Event Outcome Setup
  unfolding source_of socket_for
  setup ip = do
    src ← source_of (family_of ip)
    socket ← expect (socket_for (family_of ip) src)
    pure (record {
      family = family_of ip;
      socket = socket;
      src = src;
      privileged = is_privileged socket;
      hop_limit_flag_set = lib.control socket;
    })

  -- `make` panics on a negative size.
  pub data_of : Option Bytes → Run Event Outcome Bytes
  data_of none = leave panicked
  data_of (some bs) = pure bs

  abbrev pub request : Setup → ℕ → Bytes → Message
  request s seq bs = record { type = request_type s.family; id = icmp_id; seq = seq; data_ = bs }

  -- The id is not known, where the kernel sets it.
  abbrev pub id_unknown : Setup → Bool
  id_unknown s = not s.privileged && os == "linux"

  abbrev pub reply : Setup → ℕ → Bytes → Message
  reply s seq bs = record {
    type = reply_type s.family;
    id = if id_unknown s then 0 else icmp_id;
    seq = seq;
    data_ = bs;
  }

  -- The header has 20 bytes.
  abbrev pub sent : Setup → Ip → Bytes → Sent
  sent s ip wb =
      if is_raw s.socket
      then to_raw (if ltb_ℤ (pos 0) c.ttl then c.ttl else default_icmp_ttl) (20 + length wb) s.src
          ip wb
      else to_conn s.socket (if ltb_ℤ (pos 0) c.ttl then some c.ttl else none)
          (lib.dst_text s.privileged ip) wb

  abbrev measured : Option ℕ → List Event
  measured none = []
  measured (some n) =
      set "probe_icmp_reply_hop_limit" [] (pos n) ∷ register "probe_icmp_reply_hop_limit" ∷ []

  pub judge : Reply → Run Event Outcome Outcome
  judge timed_out = fail
  judge (matching hop_limit) =
      emit (timed "probe_icmp_duration_seconds" ("rtt" ∷ []) ∷ measured hop_limit) (returned true)

  -- The two packets, of the request and of its reply.
  pub record Exchange : Type 0 where
    pub setup : Setup
    pub ip : Ip
    pub data_ : Bytes
    pub request : Bytes
    pub reply : Bytes

  -- All until the replies are read. `sequence` is the state of the process.
  pub prepare : ℕ → Run Event Outcome Exchange
  unfolding resolved setup payload data_of get_icmp_sequence
  prepare sequence = do
    log (register "probe_icmp_duration_seconds" ∷ [])
    let choice = choose_protocol lib.resolver c.ip_protocol c.ip_protocol_fallback target
    log choice.1
    ip ← resolved choice.0
    log (timed "probe_icmp_duration_seconds" ("resolve" ∷ []) ∷ [])
    s ← setup ip
    bs ← data_of (payload c.payload_size)
    let seq = get_icmp_sequence sequence
    wb ← expect (lib.marshal (request s seq bs))
    log (timed "probe_icmp_duration_seconds" ("setup" ∷ []) ∷ [])
    require (lib.write (sent s ip wb))
    rb ← expect (lib.marshal (reply s seq bs))
    require lib.set_read_deadline
    pure (record { setup = s; ip = ip; data_ = bs; request = wb; reply = rb })

  pub arrived : Exchange → Reply
  unfolding wanted_reply
  arrived x =
      receive (id_unknown x.setup) x.setup.family (lib.dst_text x.setup.privileged x.ip)
        (wanted_reply (id_unknown x.setup) x.reply) x.setup.hop_limit_flag_set
        (lib.received (sent x.setup x.ip x.request))

  unfoldable pub probe_icmp : ℕ → Run Event Outcome Outcome
  unfolding prepare arrived judge
  probe_icmp sequence = do x ← prepare sequence; judge (arrived x)
