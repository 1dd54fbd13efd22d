-- ===== src/Route/Tests.antt =====
-- Answers of the kernel, and the theorems at them.
use cfunction.Prelude.{
  ◌==◌, if◌then◌else◌, codes, replicate, ℤ, pos, ℕ, ◌+◌, ◌≡◌, refl, true, Option, none, some, List,
  [], ◌∷◌, ◌++◌, arith,
}
use cfunction.Route.{
  select, get_default_gateway, oif, via, dst, Route, finished, routes, Datagram, Reply, failed, got,
  read_routes, af_inet, rt_table_main, select, get_default_gateway,
}
use cfunction.Route.Replies.{
  IsResult, answers, sizes, all_messages, read_routes-returns, read_routes-parts,
  get_default_gateway-first,
}

abbrev name_of : ℕ → Option (List ℕ)
name_of index = if index == 3 then some (codes "wlan0") else none

abbrev host_route : Route
host_route = record {
  family = af_inet;
  table = rt_table_main;
  attributes = dst 0x0100A8C0 ∷ oif 3 ∷ [];
}

abbrev default_route : Route
default_route = record {
  family = af_inet;
  table = rt_table_main;
  attributes = oif 3 ∷ via 0xFE00A8C0 ∷ [];
}

abbrev datagram : ℕ → List Route → Datagram
datagram seq messages = record {
  size = 60;
  well_formed = true;
  kind = routes;
  multi = true;
  seq = seq;
  pid = 7;
  messages = messages;
}

abbrev done : Datagram
done = record {
  size = 20;
  well_formed = true;
  kind = finished;
  multi = true;
  seq = 0;
  pid = 7;
  messages = [];
}

-- The default route in the second datagram is not found.
missed :
    get_default_gateway name_of
      (got (datagram 0 (host_route ∷ [])) ∷ got (datagram 0 (default_route ∷ [])) ∷ got done ∷ [])
      7
      (codes "wlan0")
    ≡ some none
unfolding get_default_gateway read_routes
missed = refl

found :
    get_default_gateway name_of
      (got (datagram 0 (host_route ∷ default_route ∷ [])) ∷ [])
      7
      (codes "wlan0")
    ≡ some (some 0xFE00A8C0)
unfolding get_default_gateway read_routes
found = refl

abbrev both : List Datagram
both = datagram 1 (host_route ∷ []) ∷ datagram 1 (default_route ∷ []) ∷ []

read_routes-parts_example :
    read_routes (answers both (got done ∷ [])) 1 7 0 []
    ≡ some (pos (0 + sizes both), [] ++ all_messages both)
read_routes-parts_example =
    read_routes-parts both done [] 1 7 0 [] (ground arith) (refl, refl) (omega arith)

get_default_gateway-first_example :
    get_default_gateway name_of
      (got (datagram 0 (host_route ∷ [])) ∷ got (datagram 0 (default_route ∷ [])) ∷ [])
      7
      (codes "wlan0")
    ≡ some (select name_of (codes "wlan0") (host_route ∷ []))
get_default_gateway-first_example =
    get_default_gateway-first name_of (datagram 0 (host_route ∷ []))
      (got (datagram 0 (default_route ∷ [])) ∷ []) 7 (codes "wlan0") refl refl refl (omega arith)

-- As many datagrams as fit, and then errors
abbrev full : List Reply
full = answers (replicate 17 (datagram 1 (host_route ∷ []))) (replicate 50 failed)

read_routes-returns_example :
    (len : ℤ) × (all : List Route) × (read_routes full 1 7 0 [] ≡ some (len, all)) × IsResult len
read_routes-returns_example =
    read_routes-returns full 1 7 0 [] (omega arith) (ground arith) (omega arith)
