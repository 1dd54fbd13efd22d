-- ===== src/Route/Replies.antt =====
-- `read_routes` over the datagrams of the kernel.
use cfunction.Prelude.{
  ltb, if◌then◌else◌, Bool-cases, length, All, ℤ, pos, negsuc, ℕ, ◌+◌, ◌-◌, ◌*◌, ◌≤◌, ◌<◌, ◌≡◌,
  refl, sym, ◌∙◌, ◌⊎◌, inl, inr, true, false, Option, some, List, [], ◌∷◌, ◌++◌, append_assoc,
  append-nil, arith,
}
use cfunction.Route.{
  select, get_default_gateway, gateway_bufsize, header_size, Route, Kind, finished, refused, routes,
  Datagram, Reply, failed, got, is_ok, goes_on, read_routes, select, get_default_gateway,
}

-- The system writes no more than the room that is left.
abbrev pub Served : List Reply → ℕ → Type 0
Served [] msg_len = Unit
Served (failed ∷ replies) msg_len = Unit
Served (got d ∷ replies) msg_len =
    (d.size ≤ gateway_bufsize - msg_len) × Served replies (msg_len + d.size)

Kind-cases : (k : Kind) → (k ≡ routes) ⊎ ((k ≡ finished) ⊎ (k ≡ refused))
Kind-cases routes = inl refl
Kind-cases finished = inr (inl refl)
Kind-cases refused = inr (inr refl)

-- A round of the loop with a datagram of each kind.
module _ (d : Datagram) (replies : List Reply) (seq pid msg_len : ℕ) (buf : List Route)
    (fits : d.size ≤ gateway_bufsize - msg_len) where
  has_room : ltb (gateway_bufsize - msg_len) d.size ≡ false
  has_room = ground (arith, fits)

  read_routes-routes :
      is_ok d ≡ true
      → d.kind ≡ routes
      → read_routes (got d ∷ replies) seq pid msg_len buf ≡ (
          if goes_on d seq pid
          then read_routes replies seq pid (msg_len + d.size) (buf ++ d.messages)
          else some (pos (msg_len + d.size), buf ++ d.messages))
  unfolding read_routes
  read_routes-routes ok kind = rw (has_room, ok, kind) refl

  read_routes-finished :
      is_ok d ≡ true
      → d.kind ≡ finished
      → read_routes (got d ∷ replies) seq pid msg_len buf ≡ some (pos msg_len, buf)
  unfolding read_routes
  read_routes-finished ok kind = rw (has_room, ok, kind) refl

  read_routes-refused :
      (is_ok d ≡ false) ⊎ (d.kind ≡ refused)
      → read_routes (got d ∷ replies) seq pid msg_len buf ≡ some (negsuc 0, buf)
  unfolding read_routes
  read_routes-refused (inl bad) = rw (has_room, bad) refl
  read_routes-refused (inr kind) = elim (Bool-cases (is_ok d)) [
    | inl ok ↦ rw (has_room, ok, kind) refl
    | inr bad ↦ rw (has_room, bad) refl
  ]

-- What read_routes may return: -1, or a length that the buffer has.
abbrev pub IsResult : ℤ → Type 0
IsResult len = (len ≡ negsuc 0) ⊎ ((n : ℕ) × (len ≡ pos n) × (n ≤ gateway_bufsize))

-- While the system writes no more than the room it is given: whatever comes, once there are replies
-- for more headers than the buffer has room left for, read_routes returns, and with -1 or a length
-- that the buffer has.
pub read_routes-returns :
    (replies : List Reply) (seq pid msg_len : ℕ) (buf : List Route)
    → msg_len ≤ gateway_bufsize
    → Served replies msg_len
    → gateway_bufsize < msg_len + header_size * length replies
    → (len : ℤ) × (all : List Route) × (read_routes replies seq pid msg_len buf ≡ some (len, all))
      × IsResult len
unfolding read_routes
read_routes-returns [] seq pid msg_len buf low served many = absurd (omega arith)
read_routes-returns (failed ∷ replies) seq pid msg_len buf low served many = (_, _, refl, inl refl)
read_routes-returns (got d ∷ replies) seq pid msg_len buf low (fits, served) many =
    elim (Bool-cases (is_ok d)) [
      | inr bad ↦ (_, _, read_routes-refused d replies seq pid msg_len buf fits (inl bad), inl refl)
      | inl ok ↦ elim (Kind-cases d.kind) [
        | inr (inr k) ↦
            (_, _, read_routes-refused d replies seq pid msg_len buf fits (inr k), inl refl)
        | inr (inl k) ↦ (
          _,
          _,
          read_routes-finished d replies seq pid msg_len buf fits ok k,
          inr (msg_len, refl, low),
        )
        | inl k ↦
            let longer : msg_len + d.size ≤ gateway_bufsize = omega (arith, fits, low) in
            let header : header_size ≤ d.size = ground (arith, ok) in
            let e = read_routes-routes d replies seq pid msg_len buf fits ok k in
            elim (Bool-cases (goes_on d seq pid)) [
              | inr stop ↦ (
                pos (msg_len + d.size),
                buf ++ d.messages,
                e ∙ rw stop refl,
                inr (_, refl, longer),
              )
              | inl on ↦
                  let (len, all, f, bound) =
                    read_routes-returns replies seq pid (msg_len + d.size) (buf ++ d.messages)
                      longer served (omega (arith, many, header)) in
                  (len, all, e ∙ rw on f, bound)
            ]
      ]
    ]

-- Datagrams with routes, all of the sequence that is waited for and marked as parts of one answer.
abbrev pub IsPart : (seq pid : ℕ) → Datagram → Type 0
IsPart seq pid d =
    (is_ok d ≡ true) × (d.kind ≡ routes) × (d.multi ≡ true) × (d.seq ≡ seq) × (d.pid ≡ pid)

abbrev pub sizes : List Datagram → ℕ
sizes [] = 0
sizes (d ∷ parts) = d.size + sizes parts

abbrev pub all_messages : List Datagram → List Route
all_messages [] = []
all_messages (d ∷ parts) = d.messages ++ all_messages parts

abbrev pub answers : List Datagram → List Reply → List Reply
answers [] end = end
answers (d ∷ parts) end = got d ∷ answers parts end

-- The parts of an answer that fit the buffer together, and then a datagram that ends it: the length
-- of the parts and their messages, in order.
pub read_routes-parts :
    (parts : List Datagram) (end : Datagram) (rest : List Reply) (seq pid msg_len : ℕ)
    (buf : List Route)
    → All (IsPart seq pid) parts
    → (is_ok end ≡ true) × (end.kind ≡ finished)
    → msg_len + (sizes parts + end.size) ≤ gateway_bufsize
    → read_routes (answers parts (got end ∷ rest)) seq pid msg_len buf
      ≡ some (pos (msg_len + sizes parts), buf ++ all_messages parts)
unfolding read_routes
read_routes-parts [] end rest seq pid msg_len buf h (ok, kind) room =
    let z : msg_len + 0 ≡ msg_len = omega arith in
    rw (z, append-nil buf)
      (read_routes-finished end rest seq pid msg_len buf (omega (arith, room)) ok kind)
read_routes-parts (d ∷ parts) end rest seq pid msg_len buf ((ok, k, multi, s, p), h) e room =
    let replies = answers parts (got end ∷ rest) in
    let on : goes_on d seq pid ≡ true = rw (multi, s, p) (ground arith) in
    let sum : msg_len + (d.size + sizes parts) ≡ msg_len + d.size + sizes parts = omega arith in
    read_routes-routes d replies seq pid msg_len buf (omega (arith, room)) ok k
    ∙ rw (on, sum, sym (append_assoc buf d.messages (all_messages parts)))
        (read_routes-parts parts end rest seq pid (msg_len + d.size) (buf ++ d.messages) h e
          (omega (arith, room)))

-- The kernel answers with the sequence number of the request, which is 0, but get_default_gateway
-- waits for 1: after the first datagram of routes read_routes stops, and only the routes in that
-- datagram are looked at, whatever the others hold.
pub get_default_gateway-first :
    (if_indextoname : ℕ → Option (List ℕ)) (d : Datagram) (replies : List Reply) (pid : ℕ)
    (eth_name : List ℕ)
    → is_ok d ≡ true
    → d.kind ≡ routes
    → d.seq ≡ 0
    → d.size ≤ gateway_bufsize
    → get_default_gateway if_indextoname (got d ∷ replies) pid eth_name
      ≡ some (select if_indextoname eth_name d.messages)
unfolding get_default_gateway
get_default_gateway-first if_indextoname d replies pid eth_name ok kind seq fits =
    let e = read_routes-routes d replies 1 pid 0 [] fits ok kind in
    let stop : goes_on d 1 pid ≡ false = ground (arith, seq) in rw (e, stop) refl
