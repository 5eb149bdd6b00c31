-- ===== src/Envelope/Multipart/Asset/Quiet.antt =====
-- experiments/client-keyed-objects/client/src/upload.ts: code that does not mark an asset complete.
use supabase_lab.Common.{
  ℕ, ◌≡◌, refl, sym, ap, ◌∙◌, Bool, true, false, List, [], ◌∷◌, ◌++◌, if◌then◌else◌,
}
use mathlib.Core.List.{append-nil, append_assoc}
use supabase_lab.Envelope.{Result, ok, failed}
use supabase_lab.Envelope.Multipart.Steps.{
  Patch, Call, Outcome, returned, thrown, running, Program, of_result, request, followed, ◌>>=◌,
}

-- the digests with which the requests mark an asset complete
abbrev pub marks : List Call → List (List ℕ)
marks [] = []
marks (Call.patch_asset (Patch.complete_with sha) ∷ rest) = sha ∷ marks rest
marks (Call.patch_asset (Patch.upload_id id) ∷ rest) = marks rest
marks (Call.patch_asset (Patch.tus_url url) ∷ rest) = marks rest
marks (Call.create_upload ∷ rest) = marks rest
marks (Call.count_rows ∷ rest) = marks rest
marks (Call.upsert_chunks rows ∷ rest) = marks rest
marks (Call.upload_part n bytes ∷ rest) = marks rest
marks (Call.list_parts m ∷ rest) = marks rest
marks (Call.complete ps ∷ rest) = marks rest

pub marks-append : (log rest : List Call) → marks (log ++ rest) ≡ marks log ++ marks rest
marks-append [] rest = refl
marks-append (Call.patch_asset (Patch.complete_with sha) ∷ log) rest =
    ap (◌∷◌ sha) (marks-append log rest)
marks-append (Call.patch_asset (Patch.upload_id id) ∷ log) rest = marks-append log rest
marks-append (Call.patch_asset (Patch.tus_url url) ∷ log) rest = marks-append log rest
marks-append (Call.create_upload ∷ log) rest = marks-append log rest
marks-append (Call.count_rows ∷ log) rest = marks-append log rest
marks-append (Call.upsert_chunks rows ∷ log) rest = marks-append log rest
marks-append (Call.upload_part n bytes ∷ log) rest = marks-append log rest
marks-append (Call.list_parts m ∷ log) rest = marks-append log rest
marks-append (Call.complete ps ∷ log) rest = marks-append log rest

-- after the log the requests of `later` mark nothing
abbrev pub Quiet : List Call → List Call → Type 0
Quiet log later = (calls : List Call) × (later ≡ log ++ calls) × (marks calls ≡ [])

-- code that marks nothing, whatever it comes to
abbrev pub IsQuiet : {A : Type 0} → Program A → Type 0
IsQuiet m = (log : List Call) → Quiet log (m log).1

pub Quiet-nil : (log : List Call) → Quiet log log
Quiet-nil log = ([], sym (append-nil log), refl)

pub Quiet-trans : (a b c : List Call) → Quiet a b → Quiet b c → Quiet a c
Quiet-trans a b c (xs, e, q) (ys, e', q') = (
  xs ++ ys,
  e' ∙ ap (λ l. l ++ ys) e ∙ append_assoc a xs ys,
  marks-append xs ys ∙ ap (λ l. l ++ marks ys) q ∙ q',
)

pub Quiet-marks : (a b : List Call) → Quiet a b → marks b ≡ marks a
Quiet-marks a b (xs, e, q) =
    ap marks e ∙ marks-append a xs ∙ ap (◌++◌ (marks a)) q ∙ append-nil (marks a)

pub of_result-IsQuiet : {A : Type 0} (r : Result A) → IsQuiet (of_result r)
of_result-IsQuiet (ok a) log = Quiet-nil log
of_result-IsQuiet (failed e) log = Quiet-nil log

pub request-IsQuiet :
    {A : Type 0} (answer : List Call → Result A) (c : Call)
    → marks (c ∷ []) ≡ []
    → IsQuiet (request answer c)
request-IsQuiet answer c h log =
    Quiet-trans log (log ++ c ∷ []) _ (c ∷ [], refl, h)
      (of_result-IsQuiet (answer (log ++ c ∷ [])) (log ++ c ∷ []))

pub followed-IsQuiet :
    {A B : Type 0} (r : Outcome A × List Call) (f : A → Program B)
    → ((a : A) → IsQuiet (f a))
    → Quiet r.1 (followed r f).1
followed-IsQuiet (returned a, log) f q = q a log
followed-IsQuiet (thrown e, log) f q = Quiet-nil log
followed-IsQuiet (running, log) f q = Quiet-nil log

pub bind-IsQuiet :
    {A B : Type 0} (m : Program A) (f : A → Program B)
    → IsQuiet m
    → ((a : A) → IsQuiet (f a))
    → IsQuiet (m >>= f)
bind-IsQuiet m f q q' log =
    Quiet-trans log (m log).1 (followed (m log) f).1 (q log) (followed-IsQuiet (m log) f q')

pub if-IsQuiet :
    {A : Type 0} (b : Bool) (m n : Program A) → IsQuiet m → IsQuiet n → IsQuiet (if b then m else n)
if-IsQuiet true m n q q' = q
if-IsQuiet false m n q q' = q'
