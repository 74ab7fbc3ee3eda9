-- ===== src/Web/Apps.antt =====
-- web/http_app.hpp and .cpp, and of web/http_server.cpp `app_store` and `impl::session`: the
-- applications of a server, which of them gets a request, and what a connection is sent. A body is
-- the texts that it is put together of. Regular expressions, `need_eof`, and what an application
-- does, are parameters.
pub mod Routes
pub mod Answers
pub mod Sessions
use arby.Common.{
  ℕ, ◌≡◌, String, Bool, true, false, not, if◌then◌else◌, Option, none, some, List, [], ◌∷◌, ◌++◌,
}
use arby.Common.Result.{
  Result, ok, err, Fault, ◌>>=◌, or_fail, bad_regex, not_connected, write_failed,
}

pub data Status : Type 0 where
  found not_found : Status

pub record Request : Type 0 where
  pub method : String
  pub target : String
  pub version : ℕ
  pub keep_alive : Bool

pub record Response : Type 0 where
  pub result : Status
  pub version : ℕ
  pub keep_alive : Bool
  pub body : List String

-- What a coroutine writes on the socket, and its value or exception.
abbrev pub Reply : Type 0
Reply = List Response × Result Bool

-- What the peer does. After a request: whether the socket still has a peer, and whether what the
-- server itself writes is sent.
pub data Turn : Type 0 where
  timed_out read_failed : Turn
  received : Request → Bool → Bool → Turn

pub data Ending : Type 0 where
  waiting ended : Ending
  thrown : Fault → Ending

-- `async_write` of a response, and `!response.need_eof()`.
abbrev pub send : (Response → Bool) → Response → Bool → Reply
send need_eof response true = (response ∷ [], ok (not (need_eof response)))
send need_eof response false = ([], err write_failed)

abbrev pub missing : String → List String
missing target = "No app registered that matches " ∷ target ∷ "\r\n" ∷ []

-- `http_app_base::operator()`
unfoldable pub http_app_base : (Response → Bool) → Request → Bool → Reply
http_app_base need_eof request sent =
    send need_eof
      (record {
        result = not_found;
        version = request.version;
        keep_alive = request.keep_alive;
        body = missing request.target;
      })
      sent

-- `while (again)`
abbrev pub again : Reply → List Response × Ending → List Response × Ending
again (written, err fault) rest = (written, thrown fault)
again (written, ok false) rest = (written, ended)
again (written, ok true) rest = (written ++ rest.0, rest.1)

module _ (Regex Match : Type 0) where
  pub record AppEntry : Type 0 where
    pub def : String
    pub re : Regex
    pub app : Request → Match → Reply

  -- `store_`
  abbrev pub Store : Type 0
  Store = List AppEntry

  -- The constructor of `std::regex` throws at a text that is no pattern.
  unfoldable pub add_app :
      (String → Option Regex) → String → (Request → Match → Reply) → Store → Result Store
  add_app regex def app store = or_fail (regex def) bad_regex >>= λ re.
      ok (store ++ record { def = def; re = re; app = app } ∷ [])

  module _ (regex_match : String → Regex → Option Match) (need_eof : Response → Bool) where
    -- The loop over `store_`: the first entry whose pattern the target matches.
    unfoldable pub select : String → Store → Option (AppEntry × Match)
    select target [] = none
    select target (entry ∷ store) =
        let rest = select target store in
        elim (regex_match target entry.re) [ none ↦ rest | some match ↦ some (entry, match) ]

    unfoldable pub routes : Store → List String
    routes [] = []
    routes (entry ∷ store) = entry.def ∷ "\r\n" ∷ routes store

    abbrev pub no_app : Store → Request → Response
    no_app store request = record {
      result = not_found;
      version = request.version;
      keep_alive = request.keep_alive;
      body = missing request.target ++ "Valid route regexes are:\r\n" ∷ routes store;
    }

    -- One round of the loop of `session` after a request was read.
    unfoldable pub turn : Store → Request → Bool → Bool → Reply
    turn store request connected sent =
        if connected
        then elim (select request.target store) [
          | some (entry, match) ↦ entry.app request match
          | none ↦ send need_eof (no_app store request) sent
        ]
        else ([], err not_connected)

    -- `session`, whose first line asks for the peer. A failed read leaves the `||` to the timer.
    unfoldable pub rounds : Store → List Turn → List Response × Ending
    rounds store [] = ([], waiting)
    rounds store (timed_out ∷ turns) = ([], ended)
    rounds store (read_failed ∷ turns) = ([], ended)
    rounds store (received request connected sent ∷ turns) =
        again (turn store request connected sent) (rounds store turns)

    unfoldable pub session : Store → Bool → List Turn → List Response × Ending
    session store connected turns =
        if connected then rounds store turns else ([], thrown not_connected)
