-- ===== src/Method/Tests.antt =====
-- Runs of `HttpMethod` of src/request.rs.
use mhttp.Common.{◌≡◌, some, none, refl, codes}
use mhttp.Method.{HttpMethod, from_str}

from_str_runs : (from_str (codes "Get") ≡ some HttpMethod.get) × (from_str (codes "BREW") ≡ none)
unfolding from_str
from_str_runs = (refl, refl)
