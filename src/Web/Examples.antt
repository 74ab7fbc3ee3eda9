-- ===== src/Web/Examples.antt =====
-- Digests at concrete texts.
use arby.Common.{
  ℕ_discrete, ℕ, ◌+◌, dec_lt, ite, ◌↔◌, ◌≡◌, ◌<◌, refl, map, length, replicate, All, ◌∷◌, [], List,
  String, String_discrete, Bool, true, false, not, Option, some, none, arith,
}
use arby.Common.Assoc.{lookup, assign, erase}
use arby.Common.Result.{ok, err, bad_executor, null_reference}
use arby.Entity.Digest.{Bytes, stringify}
use arby.Web.Apps.{
  rounds, turn, routes, Status, Request, Response, Reply, Turn, Ending, AppEntry, Store, send,
  select, session,
}
use arby.Web.Apps.Routes.{Registration, IsFirst, add_all, add_all-select}
use arby.Web.Apps.Sessions.{Served, session_iff}
use arby.Web.Server.{
  Op, World, no_servers, http_server, serve, move_construct, move_assign, destroy, shutdown,
  stop_all, add_server_app, step, run,
}
use arby.Common.Totals.{count}
use arby.Web.Server.Held.{held}
use arby.Web.Server.Runs.{run-stops, serve-move_construct}
use arby.Web.EntityDetail.{to_value, read_bytes, to_sha1_digest}
use arby.Web.EntityDetail.RoundTrip.{
  lower_digit, to_sha1_digest-stringify, stringify-to_sha1_digest,
}

abbrev digest : Bytes
digest = 0 ∷ 171 ∷ replicate 18 255

to_sha1_digest-stringify_example : to_sha1_digest (stringify digest) ≡ ok digest
to_sha1_digest-stringify_example = to_sha1_digest-stringify digest refl (omega arith)

abbrev mixed : Bytes
mixed = b'0' ∷ b'0' ∷ b'A' ∷ b'b' ∷ replicate 36 b'F'

stringify-to_sha1_digest_example :
    (stringify digest ≡ map lower_digit mixed) × (length digest ≡ 20) × All (λ b. b < 256) digest
unfolding to_sha1_digest read_bytes to_value lookup ℕ_discrete
stringify-to_sha1_digest_example = stringify-to_sha1_digest mixed digest refl

-- A pattern is the text that it matches, and matches nothing else.
abbrev literal : String → Option String
literal def = some def

abbrev literal_match : String → String → Option (Unit {0})
literal_match target re = ite (String_discrete target re) (some tt) none

abbrev closing : Response → Bool
closing response = not response.keep_alive

abbrev page : String → Request → Unit {0} → Reply
page text request match =
    send closing
      (record {
        result = Status.found;
        version = request.version;
        keep_alive = request.keep_alive;
        body = text ∷ [];
      })
      true

abbrev registrations : List (Registration String (Unit {0}) literal literal_match closing)
registrations = ("/a", page "first") ∷ ("/b", page "second") ∷ ("/a", page "third") ∷ []

add_all-select_example :
    (store : Store String (Unit {0})) × (add_all String
        (Unit {0})
        literal
        literal_match
        closing
        registrations
        []
      ≡ ok store)
    × ((target : String) (entry : AppEntry String (Unit {0})) (match : Unit {0})
        → (select String (Unit {0}) literal_match closing target store ≡ some (entry, match))
          ↔ IsFirst String
              (Unit {0})
              literal
              literal_match
              closing
              target
              registrations
              entry
              match)
add_all-select_example =
    add_all-select String (Unit {0}) literal literal_match closing registrations
      (("/a", refl), (("/b", refl), (("/a", refl), tt)))

abbrev pages : Store String (Unit {0})
pages = record { def = "/a"; re = "/a"; app = page "first" } ∷ []

abbrev ask : String → Bool → Turn
ask target keep =
    Turn.received (record { method = "GET"; target = target; version = 11; keep_alive = keep }) true
      true

abbrev turns : List Turn
turns = ask "/a" true ∷ ask "/x" true ∷ ask "/a" false ∷ ask "/a" true ∷ []

abbrev first_page : Bool → Response
first_page keep = record {
  result = Status.found;
  version = 11;
  keep_alive = keep;
  body = "first" ∷ [];
}

abbrev no_page : Response
no_page = record {
  result = Status.not_found;
  version = 11;
  keep_alive = true;
  body =
      "No app registered that matches " ∷ "/x" ∷ "\r\n" ∷ "Valid route regexes are:\r\n" ∷ "/a"
      ∷ "\r\n" ∷ [];
}

abbrev pages_sent : List Response
pages_sent = first_page true ∷ no_page ∷ first_page false ∷ []

session-pages :
    session String (Unit {0}) literal_match closing pages true turns ≡ (pages_sent, Ending.ended)
unfolding session rounds turn select routes String_discrete
session-pages = refl

session_iff_example :
    (session String (Unit {0}) literal_match closing pages true turns ≡ (pages_sent, Ending.ended))
    ↔ Served String (Unit {0}) literal_match closing pages turns pages_sent Ending.ended
session_iff_example =
    session_iff String (Unit {0}) literal_match closing pages turns pages_sent Ending.ended

abbrev operations : List (Op String (Unit {0}) literal)
operations =
    Op.constructed 0 7
    ∷ Op.served 0 "host" "80"
    ∷ Op.constructed 1 8
    ∷ Op.move_assigned 1 0
    ∷ Op.served 1 "host" "81"
    ∷ Op.destroyed 0
    ∷ Op.destroyed 1
    ∷ []

abbrev start : World String (Unit {0})
start = no_servers String (Unit {0})

run-stops_example :
    (w : World String (Unit {0})) × (run String (Unit {0}) literal operations start ≡ ok w)
    × ((i : ℕ) → count i w.stopped + held i w.servers ≡ ite (dec_lt i w.next_impl) 1 0)
    × (w.servers ≡ [] → (i : ℕ) → i < w.next_impl → count i w.stopped ≡ 1)
unfolding step http_server serve move_assign destroy shutdown stop_all lookup assign erase
    ℕ_discrete
run-stops_example = run-stops String (Unit {0}) literal operations (
  refl,
  (
    (_, _, refl, refl),
    (refl, (((_, refl), (_, refl)), ((_, _, refl, refl), ((_, refl), ((_, refl), tt))))),
  ),
)

abbrev one_server : World String (Unit {0})
one_server = http_server String (Unit {0}) 0 7 start

abbrev moved_server : World String (Unit {0})
moved_server = record one_server {
  servers =
      (0, record { exec = some 7; impls = []; apps = none })
      ∷ (1, record { exec = none; impls = []; apps = some 0 })
      ∷ [];
}

serve-move_construct_example :
    ((host port : String) → serve String (Unit {0}) 1 host port moved_server ≡ err bad_executor)
    × ((text : String) (app : Request → Unit {0} → Reply)
        → add_server_app String (Unit {0}) literal 0 text app moved_server ≡ err null_reference)
unfolding http_server move_construct lookup assign ℕ_discrete
serve-move_construct_example =
    serve-move_construct String (Unit {0}) literal 1 0 one_server moved_server
      (λ same. absurd (omega (arith, same))) refl
