-- ===== src/Trading/Feed.antt =====
-- arby/trading/feed_condition.hpp and .cpp, and the fields of arby/trading/feed_snapshot.hpp.
use arby.Common.{ℕ, String, if◌then◌else◌, List, [], ◌++◌, leb}
use arby.Trading.Types.{Timestamp}

-- In the order that `std::max` compares.
pub data FeedState : Type 0 where
  good stale not_ready error : FeedState

abbrev pub rank : FeedState → ℕ
rank good = 0
rank stale = 1
rank not_ready = 2
rank error = 3

pub record FeedCondition : Type 0 where
  pub state : FeedState
  pub errors : List String

abbrev pub default_condition : FeedCondition
default_condition = record { state = not_ready; errors = [] }

-- `std::max(state, s)`
unfoldable pub merge_state : FeedState → FeedCondition → FeedCondition
merge_state s c = record c { state = if leb (rank s) (rank c.state) then c.state else s }

unfoldable pub merge : FeedCondition → FeedCondition → FeedCondition
unfolding merge_state
merge r c = let c' = merge_state r.state c in record c' { errors = c'.errors ++ r.errors }

unfoldable pub reset : FeedState → FeedCondition → FeedCondition
reset s c = record c { state = s; errors = [] }

-- The parents are shared snapshots, named by their addresses.
pub record FeedSnapshot : Type 0 where
  pub condition : FeedCondition
  pub source : String
  pub timestamp : Timestamp
  pub upstream_time : Timestamp
  pub parents : List ℕ

abbrev pub new_feed_snapshot : Timestamp → FeedSnapshot
new_feed_snapshot now = record {
  condition = default_condition;
  source = "";
  timestamp = now;
  upstream_time = now;
  parents = [];
}
