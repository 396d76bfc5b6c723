-- ===== src/Errors.antt =====
-- `describeError`, frontend/src/lib/errors.ts.
use energlens.Common.{
  ◌<◌, ◌≡◌, ◌↔◌, refl, Bool, true, false, Text, codes, of_ℕ, ◌++◌, ◌∷◌, if◌then◌else◌, leb, ◌==◌,
  arith,
}
use energlens.Client.{ApiError, Thrown, api_failure, type_error, other_error, not_an_error}

pub data ErrorKind : Type 0 where
  offline unreachable not_found server client unknown : ErrorKind

pub record ErrorDescription : Type 0 where
  pub kind : ErrorKind
  pub title : Text
  pub detail : Text
  pub can_retry : Bool

abbrev describe_api_error : ApiError → ErrorDescription
describe_api_error e =
    if e.status == 404
    then record {
      kind = not_found;
      title = codes "Not found";
      detail = codes "That item does not exist, or it has been deleted.";
      can_retry = false;
    }
    else if leb 500 e.status
    then record {
      kind = server;
      title = codes "The server had a problem";
      detail =
          codes "The API answered "
          ++ of_ℕ e.status
          ++ codes ". This is a fault on our side, not your data — nothing has been lost.";
      can_retry = true;
    }
    else record {
      kind = client;
      title = codes "That request was rejected";
      detail = e.message ++ codes " (" ++ of_ℕ e.status ++ codes ")";
      can_retry = false;
    }

abbrev unknown_detail : Thrown → Text
unknown_detail (other_error (c ∷ cs)) = c ∷ cs
unknown_detail _ = codes "The request failed for an unknown reason."

-- `navigator.onLine === false` is the first argument.
unfoldable pub describe_error : Bool → Thrown → ErrorDescription
describe_error true error = record {
  kind = offline;
  title = codes "You're offline";
  detail = codes "Check your connection, then retry.";
  can_retry = true;
}
describe_error false (api_failure e) = describe_api_error e
describe_error false (type_error _) = record {
  kind = unreachable;
  title = codes "Can't reach the server";
  detail =
      codes
        "No response from the API. It may be waking up — the server sleeps when idle and takes 30–60s to start. Retry in a moment.";
  can_retry = true;
}
describe_error false error = record {
  kind = unknown;
  title = codes "Something went wrong";
  detail = unknown_detail error;
  can_retry = true;
}

lower : (e : ApiError) → e.status < 500 → (describe_api_error e).can_retry ≡ false
lower e h = ground arith

-- Online, the description offers no retry exactly for an answer of the server with a status below
-- 500: a request that never arrived, a server's fault and an unknown error can all be retried.
-- Offline everything can.
pub can_retry_iff :
    (is_offline : Bool) (error : Thrown)
    → ((describe_error is_offline error).can_retry ≡ false)
      ↔ ((is_offline ≡ false) × ((e : ApiError) × (error ≡ api_failure e) × (e.status < 500)))
unfolding describe_error
can_retry_iff true error = ((λ h. absurd (ground arith)), (λ h. absurd (ground arith)))
can_retry_iff false (api_failure e) =
    ((λ h. (refl, (e, refl, below h))), (λ (_, (e', same, h)). refused e' same h))
  where
    below : (describe_api_error e).can_retry ≡ false → e.status < 500
    below h = ground arith

    refused :
        (e' : ApiError)
        → api_failure e ≡ api_failure e'
        → e'.status < 500
        → (describe_api_error e).can_retry ≡ false
    refused e' same h = let one : e ≡ e' = cc in rw one (lower e' h)
can_retry_iff false (type_error s) = ((λ h. absurd (cc)), (λ (_, (e, same, h)). cc))
can_retry_iff false (other_error s) = ((λ h. absurd (cc)), (λ (_, (e, same, h)). cc))
can_retry_iff false not_an_error = ((λ h. absurd (cc)), (λ (_, (e, same, h)). cc))
