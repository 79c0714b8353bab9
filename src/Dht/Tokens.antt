-- ===== src/Dht/Tokens.antt =====
-- internal/dht/token/token.go: the tokens of announcements.
pub mod Laws
use jelly_torrent.Base.{ℕ, Bool, ◌||◌, Bytes, bytes_eq, replicate}
use jelly_torrent.Base.Result.{Result, ok, err, ◌>>=◌, Panic}
use jelly_torrent.Peer.Addr.{Addr, as4}

pub record TokenManager : Type 0 where
  pub current_secret : Bytes
  pub previous_secret : Bytes

-- The argument is what `rand.Read` gives.
unfoldable pub new_tokens : Bytes → TokenManager
new_tokens secret = record { current_secret = secret; previous_secret = replicate 20 0 }

-- `mac` is HMAC-SHA-1, of a secret and a message; `As4` panics on an IPv6 address.
module _ (mac : Bytes → Bytes → Bytes) where
  unfoldable pub hash_token : Addr → Bytes → Result Panic Bytes
  hash_token addr secret = do a ← as4 addr; ok (mac secret a)

  unfoldable pub generate : Addr → TokenManager → Result Panic Bytes
  unfolding hash_token
  generate addr t = hash_token addr t.current_secret

  unfoldable pub validate : Addr → Bytes → TokenManager → Result Panic Bool
  unfolding hash_token bytes_eq
  validate addr token t = do
    current ← hash_token addr t.current_secret
    previous ← hash_token addr t.previous_secret
    ok (bytes_eq current token || bytes_eq previous token)

unfoldable pub rotate : Bytes → TokenManager → TokenManager
rotate secret t = record { current_secret = secret; previous_secret = t.current_secret }
