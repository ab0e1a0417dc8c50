-- ===== src/Upstream/Signed.antt =====
-- `doWith` and `doWithNoTimeout` of internal/upstream/client.go: the request that is sent to a node.
use opengnk.Prelude.{ℕ, [], Option, none, some, ◌++◌, ◌>>=◌}
use opengnk.Text.{Bytes, codes}
use opengnk.Text.Decimal.{decimal}
use opengnk.Text.Dict.{Dict, insert}
use opengnk.Wallet.{Wallet}
use opengnk.Upstream.{Endpoint}
use opengnk.Signer.Nonce.{Curve, sign}

pub record HttpRequest : Type 0 where
  pub method : Bytes
  pub url : Bytes
  pub headers : Dict
  pub body : Option Bytes

payload_bytes : Option Bytes → Bytes
payload_bytes none = []
payload_bytes (some b) = b

-- The request, with its signature and its time; a payload that is nil is none. The two functions
-- build the same request, and hand it to clients with and without a timeout.
unfoldable pub do_with :
    (Bytes → Bytes → Bytes)
    → (Bytes → Bytes)
    → ℕ
    → Curve
    → ℕ
    → Endpoint
    → Wallet
    → Bytes
    → Bytes
    → Option Bytes
    → Option HttpRequest
unfolding payload_bytes
do_with hmac sha256 fuel curve ts ep w method path payload = do
  sig ← sign hmac sha256 fuel curve w.signer ts (payload_bytes payload) ep.address
  some (record {
    method = method;
    url = ep.url ++ path;
    headers = insert (codes "X-Timestamp") (decimal ts) (
        insert (codes "X-Requester-Address") w.address (
          insert (codes "Authorization") sig
            (insert (codes "Content-Type") (codes "application/json") [])));
    body = payload;
  })
