-- ===== src/Journal/Trace.antt =====
-- Sequences of calls of a host operation journal.
use mathews.Common.{ℕ, List, [], ◌∷◌}
use mathews.Journal.{HostRequest, JournalResult, Journal, Encoding}
use mathews.Journal.Calls.{begin, finish}

-- A call that writes the journal, with the time that the clock shows.
pub data Call : Type 0 where
  begins : ℕ → HostRequest → Call
  finishes : ℕ → HostRequest → JournalResult → Call

unfoldable pub step : Encoding → Call → Journal → Journal
step x (begins now request) j = (begin x now request j).0
step x (finishes now request result) j = (finish x now request result j).0

-- Any sequence of calls, of any workers.
unfoldable pub run : Encoding → List Call → Journal → Journal
run x [] j = j
run x (c ∷ cs) j = run x cs (step x c j)
