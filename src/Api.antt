-- ===== src/Api.antt =====
-- internal/api: requests and replies over HTTP. A request has been read by net/http; how a handler
-- decodes its body is an argument of the handler.
pub mod Dispatch
pub mod Proxy
pub mod Control
use edvabe.Prelude.{ℕ, String, none, some, ◌==◌, if◌then◌else◌}
use edvabe.Prelude.Int.{ℤ}
use edvabe.Prelude.Dict.{Dict, lookup}

-- `headers` and `query` have the first value of each name. `content_length` is -1 for a body whose
-- length is not announced.
pub record Request : Type 0 where
  pub method : String
  pub path : String
  pub host : String
  pub headers : Dict String
  pub query : Dict String
  pub body : String
  pub content_length : ℤ

-- r.Header.Get(name), r.URL.Query().Get(name)
unfoldable pub first_value : String → Dict String → String
first_value name values = elim (lookup name values) [ none ↦ "" | some v ↦ v ]

-- A reply with a body of `A`, one without, and the error envelope that WriteError writes. The text
-- of an error is left out.
pub data Reply (A : Type 0) : Type 0 where
  replied : ℕ → A → Reply A
  no_body : ℕ → Reply A
  write_error : ℕ → Reply A

-- http.NotFound, whose reply is plain text
abbrev pub page_not_found : {A : Type 0} → Reply A
page_not_found = no_body 404
