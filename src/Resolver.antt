-- ===== src/Resolver.antt =====
-- The redirect's cache of tracking links: `createLinkResolver` of apps/redirect/src/link-resolver.ts. The
-- cache is one cell of Redis for the short code in question; Redis, JSON.parse and the API are the
-- environment, which each request is given. Times are seconds.
pub mod Staleness
mod Examples
use build_affiliate.Common.{
  ℕ, ◌+◌, Bool, true, false, Option, none, some, List, [], ◌∷◌, ltb, if◌then◌else◌,
}

-- The text of a cell: `__missing__`, the JSON of a link, or what does not parse.
pub data Entry : Type 0 where
  negative : Entry
  positive : ℕ → Entry
  corrupt : Entry

pub record Cell : Type 0 where
  pub entry : Entry
  pub expires_at : ℕ

-- What `fetchLink` does: a link, `null`, or a throw.
pub data Fetched : Type 0 where
  link : ℕ → Fetched
  no_such_link : Fetched
  unreachable : Fetched

abbrev pub positive_ttl_seconds : ℕ
positive_ttl_seconds = 86400

abbrev pub negative_ttl_seconds : ℕ
negative_ttl_seconds = 60

-- One request: the time, whether the read and the write of Redis succeed, and what the API would
-- answer.
pub record Visit : Type 0 where
  pub now : ℕ
  pub can_read : Bool
  pub can_write : Bool
  pub api : Fetched

-- `redis.get`: null where nothing is cached, the entry is past its time or the read throws.
abbrev pub read_cell : Visit → Option Cell → Option Entry
read_cell v none = none
read_cell v (some c) =
    if v.can_read then (if ltb v.now c.expires_at then some c.entry else none) else none

abbrev pub write_cell : Visit → Entry → ℕ → Option Cell → Option Cell
write_cell v entry ttl cell =
    if v.can_write then some (record { entry = entry; expires_at = v.now + ttl }) else cell

-- The answer of the API is cached where it gave one.
abbrev pub cache_answer : Visit → Fetched → Option Cell → Option Cell × Option ℕ
cache_answer v unreachable cell = (cell, none)
cache_answer v no_such_link cell = (write_cell v negative negative_ttl_seconds cell, none)
cache_answer v (link l) cell = (write_cell v (positive l) positive_ttl_seconds cell, some l)

-- What follows the read: the entry, or the API where there is none that parses.
abbrev pub resolve_entry : Visit → Option Entry → Option Cell → Option Cell × Option ℕ
resolve_entry v none cell = cache_answer v v.api cell
resolve_entry v (some negative) cell = (cell, none)
resolve_entry v (some (positive l)) cell = (cell, some l)
resolve_entry v (some corrupt) cell = cache_answer v v.api cell

unfoldable pub resolve_link : Visit → Option Cell → Option Cell × Option ℕ
resolve_link v cell = resolve_entry v (read_cell v cell) cell
