-- ===== src/Route.antt =====
-- net/gateway.c: the default gateway, asked of the kernel over netlink. What a datagram holds, behind
-- the macros NLMSG_* and RTA_*, and the name of an interface are for the system to say.
mod Replies
mod Tests
use cfunction.Prelude.{
  ltb, leb, ◌==◌, if◌then◌else◌, ltb→lt, lt→ltb, ==_iff, ==_refl, ==_ne, Bool-cases, Option-cases,
  codes, length, get_elem?, get_or, set, take, drop, replicate, length-append, length-replicate,
  length-set, get_elem?-append, drop-append, take-append, set-append, get_elem?-eq-get_or,
  get_or-set_self, get_or-set_ne, All, All-append, same, holds_below, holds_at, ℤ, pos, negsuc,
  pos_part, to_size, int_max, eq_int, sub_ℕ, ◌>>=◌, Holds, Holds-bind, Holds-if, Holds-then, always,
  text, begins, strstr, ℕ, zero, suc, ◌+◌, ◌-◌, ◌*◌, ◌/◌, ◌%◌, ◌^◌, ◌≤◌, ◌<◌, ◌≡◌, refl, sym, ap,
  ap₂, ◌∙◌, ◌≢◌, ◌↔◌, ◌⊎◌, inl, inr, Bool, true, false, not, ◌&&◌, ◌||◌, Option, none, some, List,
  [], ◌∷◌, ◌++◌, map, append_assoc, append-nil, arith,
}

-- `GATEWAY_BUFSIZE`
abbrev pub gateway_bufsize : ℕ
gateway_bufsize = 1024

-- sizeof(struct nlmsghdr), without which NLMSG_OK fails
abbrev pub header_size : ℕ
header_size = 16

-- The attributes of a route that `parse_routes` looks at.
pub data Attribute : Type 0 where
  oif : (index : ℕ) → Attribute
  via : (gateway : ℕ) → Attribute
  prefsrc : (address : ℕ) → Attribute
  dst : (address : ℕ) → Attribute
  unknown : Attribute

pub record Route : Type 0 where
  pub family : ℕ
  pub table : ℕ
  pub attributes : List Attribute

-- The type of the first message of a datagram
pub data Kind : Type 0 where
  finished : Kind  -- NLMSG_DONE
  refused : Kind  -- NLMSG_ERROR
  routes : Kind

pub record Datagram : Type 0 where
  pub size : ℕ
  pub well_formed : Bool
  pub kind : Kind
  pub multi : Bool  -- NLM_F_MULTI
  pub seq : ℕ
  pub pid : ℕ
  pub messages : List Route

-- What `recv` comes to.
pub data Reply : Type 0 where
  failed : Reply
  got : Datagram → Reply

-- NLMSG_OK
abbrev pub is_ok : Datagram → Bool
is_ok d = leb header_size d.size && d.well_formed

-- Behind the tests of `read_routes` on a datagram with routes: whether it goes on.
abbrev pub goes_on : Datagram → (seq pid : ℕ) → Bool
goes_on d seq pid = d.multi && (d.seq == seq && d.pid == pid)

-- `read_routes`: the length, or -1, and the messages in the buffer. Without a reply it blocks. The
-- system writes no more than the room it is given.
unfoldable pub read_routes :
    List Reply → (seq pid msg_len : ℕ) → List Route → Option (ℤ × List Route)
read_routes [] seq pid msg_len buf = none
read_routes (failed ∷ replies) seq pid msg_len buf = some (negsuc 0, buf)
read_routes (got d ∷ replies) seq pid msg_len buf =
    let longer = msg_len + d.size in
    let all = buf ++ d.messages in
    let rest = read_routes replies seq pid longer all in
    let more = if goes_on d seq pid then rest else some (pos longer, all) in
    if ltb (gateway_bufsize - msg_len) d.size
    then none
    else if is_ok d
    then elim d.kind as (λ _. Option (ℤ × List Route)) [
      | refused ↦ some (negsuc 0, buf)
      | finished ↦ some (pos msg_len, buf)
      | routes ↦ more
    ]
    else some (negsuc 0, buf)

-- `struct route_info`
pub record RouteInfo : Type 0 where
  pub if_name : List ℕ
  pub gateway : ℕ
  pub src_addr : ℕ
  pub dst_addr : ℕ

abbrev pub cleared : RouteInfo
cleared = record { if_name = []; gateway = 0; src_addr = 0; dst_addr = 0 }

-- AF_INET and RT_TABLE_MAIN
abbrev pub af_inet : ℕ
af_inet = 2

abbrev pub rt_table_main : ℕ
rt_table_main = 254

module _ (if_indextoname : ℕ → Option (List ℕ)) where
  -- `if_indextoname` writes no name for an index without an interface.
  abbrev pub set_attribute : RouteInfo → Attribute → RouteInfo
  set_attribute info (oif index) = elim (if_indextoname index) [
    | none ↦ info
    | some name ↦ record info { if_name = name }
  ]
  set_attribute info (via gateway) = record info { gateway = gateway }
  set_attribute info (prefsrc address) = record info { src_addr = address }
  set_attribute info (dst address) = record info { dst_addr = address }
  set_attribute info unknown = info

  -- The loop of `parse_routes`
  abbrev pub set_attributes : RouteInfo → List Attribute → RouteInfo
  set_attributes info [] = info
  set_attributes info (a ∷ attributes) = set_attributes (set_attribute info a) attributes

  -- `parse_routes`: none for -1
  abbrev pub parse_routes : Route → RouteInfo → Option RouteInfo
  parse_routes r info =
      if not (r.family == af_inet) || not (r.table == rt_table_main)
      then none
      else some (set_attributes info r.attributes)

  abbrev pub is_default : List ℕ → RouteInfo → Bool
  is_default eth_name info =
      same info.if_name eth_name && (info.dst_addr == 0 && not (info.gateway == 0))

  -- The loop of `get_default_gateway` over the messages: the gateway, none for -1.
  abbrev pub select : List ℕ → List Route → Option ℕ
  select eth_name [] = none
  select eth_name (r ∷ messages) =
      let rest = select eth_name messages in
      elim (parse_routes r cleared) as (λ _. Option ℕ) [
        | none ↦ rest
        | some info ↦ if is_default eth_name info then some info.gateway else rest
      ]

  -- `get_default_gateway`, when the socket is open and the request is sent. The request has the
  -- sequence number 0; the one that `read_routes` is given is 1.
  unfoldable pub get_default_gateway : List Reply → (pid : ℕ) → List ℕ → Option (Option ℕ)
  get_default_gateway replies pid eth_name = do
    (len, messages) ← read_routes replies 1 pid 0 []
    elim len [ negsuc _ ↦ some none | pos _ ↦ some (select eth_name messages) ]
