-- ===== src/Scheduler/Notify.antt =====
-- `sendEmail` and `httpCallback` of scheduler.go: the mail and the request that a report becomes.
-- `net/smtp`, `json.Marshal` and `http.NewRequest` are arguments; what became of the mail and of
-- the request is only logged.
use agscheduler.Base.{
  ◌≤◌, ◌≡◌, refl, arith, String, ◌<>◌, Option, none, some, List, [], ◌∷◌, ◌⊎◌, inl, inr, length,
  All, if◌then◌else◌, ◌==◌, eq_refl,
}
use agscheduler.Base.Int.{ℤ}
use agscheduler.Base.Dict.{Dict, insert, lookup, lookup-insert}
use agscheduler.Job.{Job, full_name}
use agscheduler.Env.{Env}
use agscheduler.Scheduler.Calling.{Call, Reach, reports_at_most_two}

pub record EmailConfig : Type 0 where
  pub smtp_server : String
  pub port : ℤ
  pub username : String
  pub password : String
  pub sender : String
  pub recipients : List String

pub record CallbackConfig : Type 0 where
  pub url : String
  pub message_type : String
  pub mention_list : List String

-- The arguments of `smtp.PlainAuth` and `smtp.SendMail`.
pub record Mail : Type 0 where
  pub address : String
  pub username : String
  pub password : String
  pub host : String
  pub sender : String
  pub recipients : List String
  pub message : String

-- `strings.Join(words, ",")`
unfoldable pub join_commas : List String → String
join_commas [] = ""
join_commas (w ∷ []) = w
join_commas (w ∷ v ∷ ws) = w <> "," <> join_commas (v ∷ ws)

unfoldable pub mail_text : EmailConfig → Job → (err_msg : String) → String
unfolding join_commas
mail_text c j err_msg =
    "From: "
    <> c.sender
    <> "\nTo: "
    <> join_commas c.recipients
    <> "\nSubject: Job Error Notification\n\nAn error occurred in job '"
    <> full_name j
    <> "': "
    <> err_msg

-- What `sendEmail` sends; `show_int` is `%d`.
unfoldable pub send_email : (ℤ → String) → Option EmailConfig → Job → String → Option Mail
send_email show_int none j err_msg = none
send_email show_int (some c) j err_msg = some (record {
  address = c.smtp_server <> ":" <> show_int c.port;
  username = c.username;
  password = c.password;
  host = c.smtp_server;
  sender = c.sender;
  recipients = c.recipients;
  message = mail_text c j err_msg;
})

-- The values of the message of `httpCallback`.
pub data Value : Type 0 where
  text : String → Value
  content : (err_msg : String) → (mentioned_list : List String) → Value

-- A key that stands twice in a map literal has its later value.
unfoldable pub callback_message : CallbackConfig → String → Dict Value
callback_message c err_msg =
    insert c.message_type (content err_msg c.mention_list)
      (insert "msgtype" (text c.message_type) [])

pub data Callback : Type 0 where
  not_configured : Callback
  not_marshalled : (err : String) → Callback
  not_requested : (err : String) → Callback
  posted : (url body : String) → Callback

module _ (marshal : Dict Value → String ⊎ String)
    (new_request : (url : String) → Option String) where
  request : (url : String) → (body : String) → Option String → Callback
  request url body none = posted url body
  request url body (some e) = not_requested e

  marshalled : (url : String) → String ⊎ String → Callback
  marshalled url (inl e) = not_marshalled e
  marshalled url (inr body) = request url body (new_request url)

  unfoldable pub http_callback : Option CallbackConfig → String → Callback
  unfolding marshalled request callback_message
  http_callback none err_msg = not_configured
  http_callback (some c) err_msg = marshalled c.url (marshal (callback_message c err_msg))

-- The message names its type, and holds the report and the people to mention under that name;
-- where the type is "msgtype", the one entry holds these.
callback_message_lem :
    (c : CallbackConfig) (err_msg : String)
    → (lookup c.message_type (callback_message c err_msg) ≡ some (content err_msg c.mention_list))
      × (lookup "msgtype" (callback_message c err_msg) ≡ (
          if c.message_type == "msgtype"
          then some (content err_msg c.mention_list)
          else some (text c.message_type)))
unfolding callback_message
callback_message_lem c err_msg = (
  rw
      (
        lookup-insert c.message_type c.message_type (content err_msg c.mention_list)
            (insert "msgtype" (text c.message_type) []),
        eq_refl c.message_type,
      )
      refl,
  rw
      (
        lookup-insert c.message_type "msgtype" (content err_msg c.mention_list)
            (insert "msgtype" (text c.message_type) []),
        lookup-insert "msgtype" "msgtype" (text c.message_type) [],
      )
      refl,
)

-- The mails that the reports of a run become.
unfoldable pub mails : (ℤ → String) → Option EmailConfig → Job → List String → List Mail
unfolding send_email
mails show_int config j [] = []
mails show_int config j (report ∷ reports) =
    let rest = mails show_int config j reports in
    elim (send_email show_int config j report) [ none ↦ rest | some m ↦ m ∷ rest ]

module _ (show_int : ℤ → String) (c : EmailConfig) (j : Job) where
  length-mails :
      (reports : List String) → length (mails show_int (some c) j reports) ≡ length reports
  unfolding mails
  length-mails [] = refl
  length-mails (r ∷ rs) = omega (arith, length-mails rs)

  -- The mail goes from the sender to all recipients.
  abbrev pub IsAddressed : Mail → Type 0
  IsAddressed m = (m.sender ≡ c.sender) × (m.recipients ≡ c.recipients)

  mails-IsAddressed : (reports : List String) → All IsAddressed (mails show_int (some c) j reports)
  unfolding mails
  mails-IsAddressed [] = tt
  mails-IsAddressed (r ∷ rs) = ((refl, refl), mails-IsAddressed rs)

no_mails :
    (show_int : ℤ → String) (j : Job) (reports : List String) → mails show_int none j reports ≡ []
unfolding mails
no_mails show_int j [] = refl
no_mails show_int j (r ∷ rs) = no_mails show_int j rs

-- However the end of a job's function, its timeout and the goroutines of `_runJob` interleave, one
-- run of the job sends at most two mails, each from the configured sender to the configured
-- recipients, and none where no mail is configured.
pub mails_at_most_two :
    (env : Env) (show_int : ℤ → String) (config : EmailConfig) (j : Job) (c : Call)
    → Reach env j c
    → (length (mails show_int (some config) j c.reports) ≤ 2)
      × All (IsAddressed show_int config j) (mails show_int (some config) j c.reports)
      × (mails show_int none j c.reports ≡ [])
mails_at_most_two env show_int config j c reached =
    let (bound, while_running) = reports_at_most_two env j c reached in
    (
      omega (arith, bound, length-mails show_int config j c.reports),
      mails-IsAddressed show_int config j c.reports,
      no_mails show_int j c.reports,
    )
