-- ===== src/Money/Types.antt =====
-- The data that the money integration shares: integrations/money/parser.ts and app/rows.ts.
use atomic_plugins.Prelude.{String, Option, List}

pub record Transaction : Type 0 where
  pub date : String
  pub booking_date : String
  pub amount : String
  pub code : String
  pub reference : String
  pub bank_reference : String
  pub description : String

pub record Statement : Type 0 where
  pub account : String
  pub number : String
  pub currency : String
  pub opening : String
  pub closing : String
  pub start : String
  pub end : String
  pub transactions : List Transaction

pub data StatementFormat : Type 0 where
  mt940 camt053 : StatementFormat

-- The text that stands for the format in the code.
unfoldable pub format_text : StatementFormat → String
format_text mt940 = "mt940"
format_text camt053 = "camt053"

-- A row of the transactions table.
pub record Txn : Type 0 where
  pub subject : String
  pub account : String
  pub currency : String
  pub amount : String
  pub value_date : String
  pub booking_date : String
  pub description : String
  pub reference : String
  pub code : String
  pub statement : String
  pub source_id : String
  pub fingerprint : String
  pub format : Option StatementFormat
  pub category : String
  pub note : String
