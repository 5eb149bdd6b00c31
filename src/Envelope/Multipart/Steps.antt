-- ===== src/Envelope/Multipart/Steps.antt =====
-- experiments/client-keyed-objects/client/src/upload.ts: what a request to the catalogue or to the
-- storage says, and code that makes such requests one after the other.
use supabase_lab.Common.{ℕ, ◌≡◌, refl, Option, List, [], ◌∷◌, ◌++◌, arith}
use supabase_lab.Envelope.{Bytes, CkErrorCode, Result, ok, failed}
use supabase_lab.Envelope.Upload.{HashRow}

-- a text that is parsed or compared is the list of its code units
abbrev pub Text : Type 0
Text = List ℕ

-- `CompletedPart`, an entry of the list that completes an upload
pub record CompletedPart : Type 0 where
  pub part_number : ℕ
  pub etag : Option Text

-- what `patchAsset` writes: the id of the upload, the URL of a resumable one, or that the asset is
-- complete, with the source's digest
pub data Patch : Type 0 where
  upload_id : Text → Patch
  tus_url : Text → Patch
  complete_with : List ℕ → Patch

pub data Call : Type 0 where
  create_upload : Call
  patch_asset : Patch → Call
  count_rows : Call
  upsert_chunks : List HashRow → Call
  upload_part : ℕ → Bytes → Call
  list_parts : Option Text → Call
  complete : List CompletedPart → Call

-- what code returns or throws, or that it still runs after the rounds it is given
pub data Outcome (A : Type 0) : Type 0 where
  returned : A → Outcome A
  thrown : CkErrorCode → Outcome A
  running : Outcome A

-- code, from the requests that were made to what it comes to and the requests that then were made
abbrev pub Program : Type 0 → Type 0
Program A = List Call → Outcome A × List Call

abbrev pub pure : {A : Type 0} → A → Program A
pure a log = (returned a, log)

abbrev pub raise : {A : Type 0} → CkErrorCode → Program A
raise e log = (thrown e, log)

abbrev pub of_result : {A : Type 0} → Result A → Program A
of_result (ok a) log = (returned a, log)
of_result (failed e) log = (thrown e, log)

-- a request, with the answer to it
abbrev pub request : {A : Type 0} → (List Call → Result A) → Call → Program A
request answer c log = of_result (answer (log ++ c ∷ [])) (log ++ c ∷ [])

abbrev pub followed :
    {A B : Type 0} → Outcome A × List Call → (A → Program B) → Outcome B × List Call
followed (returned a, log) f = f a log
followed (thrown e, log) f = (thrown e, log)
followed (running, log) f = (running, log)

infixl 5 ◌>>=◌ ◌>>◌
abbrev pub ◌>>=◌ : {A B : Type 0} → Program A → (A → Program B) → Program B
◌>>=◌ m f log = followed (m log) f

abbrev pub ◌>>◌ : {A B : Type 0} → Program A → Program B → Program B
m >> k = m >>= λ _. k

-- what returns has returned at each step
pub followed-returned :
    {A B : Type 0} (r : Outcome A × List Call) (f : A → Program B) (b : B) (log : List Call)
    → followed r f ≡ (returned b, log)
    → (a : A) × (mid : List Call) × (r ≡ (returned a, mid)) × (f a mid ≡ (returned b, log))
followed-returned (returned a, mid) f b log h = (a, mid, refl, h)
followed-returned (thrown e, mid) f b log h = cc
followed-returned (running, mid) f b log h = cc

pub of_result-returned :
    {A : Type 0} (r : Result A) (log : List Call) (a : A) (later : List Call)
    → of_result r log ≡ (returned a, later)
    → (r ≡ ok a) × (later ≡ log)
of_result-returned (ok x) log a later h = ground (arith, h)
of_result-returned (failed e) log a later h = cc

pub pure-returned :
    {A : Type 0} (a b : A) (log later : List Call)
    → pure a log ≡ (returned b, later)
    → (b ≡ a) × (later ≡ log)
pure-returned a b log later h = ground (arith, h)
