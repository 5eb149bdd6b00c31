-- ===== src/Envelope/Needle.antt =====
-- experiments/client-keyed-objects/client/src/read.ts: `needleCounter`, which counts the occurrences
-- of a needle in a stream of windows.
pub mod Stream
use supabase_lab.Common.{
  ℕ, suc, ◌+◌, ◌-◌, Bool, true, false, ◌&&◌, List, [], ◌∷◌, ◌++◌, length, drop, ◌==◌, if◌then◌else◌,
}
use supabase_lab.Envelope.{Bytes}

pub record NeedleCounter : Type 0 where
  pub tail : Bytes
  pub hits : ℕ

-- `for (let j = 1; j < n.length; j++) if (buf[i + j] !== n[j]) continue outer`
unfoldable pub starts_with : Bytes → Bytes → Bool
starts_with [] buf = true
starts_with (x ∷ n) [] = false
starts_with (x ∷ n) (b ∷ buf) = b == x && starts_with n buf

-- the hits from the places of the buffer where the needle's first byte is
unfoldable pub scan : ℕ → Bytes → Bytes → ℕ
unfolding starts_with
scan first n [] = 0
scan first n (b ∷ buf) =
    let later = scan first n buf in
    if b == first then (if starts_with n buf then suc later else later) else later

-- an empty needle has no first byte, and `indexOf` does not find it
unfoldable pub new_hits : Bytes → Bytes → ℕ
unfolding scan
new_hits [] buf = 0
new_hits (first ∷ n) buf = scan first n buf

-- `buf.slice(Math.max(0, buf.length - n.length + 1))`
unfoldable pub tail_of : Bytes → Bytes → Bytes
unfolding drop
tail_of n buf = drop (length buf + 1 - length n) buf

unfoldable pub new_counter : NeedleCounter
new_counter = record { tail = []; hits = 0 }

unfoldable pub feed : Bytes → Bytes → NeedleCounter → NeedleCounter
unfolding new_hits tail_of
feed n u st =
    let buf = st.tail ++ u in record { tail = tail_of n buf; hits = st.hits + new_hits n buf }

-- the windows of a stream, one after the other
unfoldable pub feed_all : Bytes → List Bytes → NeedleCounter → NeedleCounter
unfolding feed
feed_all n [] st = st
feed_all n (u ∷ us) st = feed_all n us (feed n u st)
