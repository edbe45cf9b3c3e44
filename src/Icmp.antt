-- ===== src/Icmp.antt =====
-- prober/icmp.go: the echo request, the reply that is waited for, and the probe. The sockets, the
-- marshalling of golang.org/x/net/icmp and the replies that arrive are parameters.
pub mod Sequence
pub mod Receive
pub mod Probe
use blackbox_exporter_with_g.Common.{
  ℕ, zero, suc, ◌+◌, ◌-◌, ◌%◌, ◌^◌, String, Bool, true, false, not, ◌&&◌, ◌||◌, Option, none, some,
  List, [], ◌∷◌, ◌++◌, length, take, if◌then◌else◌, ◌==◌, ℕ_eq, string_eq,
}
use blackbox_exporter_with_g.Common.Int.{ℤ, pos, negsuc}
use blackbox_exporter_with_g.Common.Text.{Bytes, codes, bytes_eq}
use blackbox_exporter_with_g.Utils.{Family, ip4, ip6}

-- `getICMPSequence`: the sequence number, which is also the new state. The mutex is held, so it is
-- one step.
unfoldable pub get_icmp_sequence : ℕ → ℕ
get_icmp_sequence sequence = (sequence + 1) % 2 ^ 16

abbrev pub greeting : Bytes
greeting = codes "Prometheus Blackbox Exporter"

abbrev pub replicate : ℕ → ℕ → Bytes
replicate zero b = []
replicate (suc n) b = b ∷ replicate n b

-- The data of the request, `none` where `make` panics on a negative size.
unfoldable pub payload : ℤ → Option Bytes
payload (negsuc n) = none
payload (pos n) =
    if n == 0 then some greeting else some (take n greeting ++ replicate (n - length greeting) 0)

-- `icmp.Message` with an `icmp.Echo`; the code is 0.
pub record Message : Type 0 where
  pub type : ℕ
  pub id : ℕ
  pub seq : ℕ
  pub data_ : Bytes

-- The types of echo requests and replies, of `ipv4` and `ipv6`.
abbrev pub request_type : Family → ℕ
request_type ip4 = 8
request_type ip6 = 128

abbrev pub reply_type : Family → ℕ
reply_type ip4 = 0
reply_type ip6 = 129

-- `b[i] = 0`, of a packet; past its end there is only the rest of the buffer.
abbrev pub clear : ℕ → Bytes → Bytes
clear i [] = []
clear zero (b ∷ bs) = 0 ∷ bs
clear (suc i) (b ∷ bs) = b ∷ clear i bs

-- The reply that is waited for: its checksum is cleared where its id is the kernel's.
unfoldable pub wanted_reply : Bool → Bytes → Bytes
wanted_reply id_unknown wb = if id_unknown then clear 3 (clear 2 wb) else wb

-- A packet that has arrived, with its id and its checksum cleared where they are not to be compared.
unfoldable pub comparable : Bool → Family → Bytes → Bytes
comparable id_unknown family rb =
    let without_id = if id_unknown then clear 5 (clear 4 rb) else rb in
    if id_unknown || reply_type family == reply_type ip6
    then clear 3 (clear 2 without_id)
    else without_id

-- What a read yields: a packet with its peer and, from the control message, its hop limit; the
-- timeout of the deadline; or another error.
pub data Received : Type 0 where
  packet : Bytes → String → Option ℕ → Received
  timeout : Received
  failure : Received

-- How the loop ends: with the hop limit of the reply, or with the timeout.
pub data Reply : Type 0 where
  matching : Option ℕ → Reply
  timed_out : Reply

-- The loop over what arrives until the deadline, where every read times out.
module _ (id_unknown : Bool) (family : Family) (dst : String) (wb : Bytes) where
  pub is_reply : Bytes → String → Bool
  unfolding comparable
  is_reply rb peer = peer == dst && comparable id_unknown family rb == wb

  pub receive : Bool → List Received → Reply
  unfolding is_reply
  receive hop_limit_flag_set [] = timed_out
  receive hop_limit_flag_set (timeout ∷ rest) = timed_out
  receive hop_limit_flag_set (failure ∷ rest) = receive hop_limit_flag_set rest
  receive hop_limit_flag_set (packet rb peer hop_limit ∷ rest) =
      let later = receive hop_limit_flag_set rest in
      if is_reply rb peer then matching (if hop_limit_flag_set then hop_limit else none) else later
