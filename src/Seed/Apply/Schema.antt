-- ===== src/Seed/Apply/Schema.antt =====
-- The CREATE TABLE statements of internal/seed/generic.go and internal/seed/billing.go.
use tidb_fk_test.Base.{List, [], ◌∷◌, Text, codes}
use tidb_fk_test.Seed.Apply.Insert.{ApplyStatement}

-- A statement with no arguments.
abbrev pub plain : Text → ApplyStatement
plain query = record { query = query; args = [] }

pub create_parent_basic_table_statement : Text
create_parent_basic_table_statement =
    codes
      "CREATE TABLE IF NOT EXISTS parent_basic (id BIGINT PRIMARY KEY, note VARCHAR(255) NOT NULL)"

pub create_child_basic_table_statement : Text
create_child_basic_table_statement =
    codes
      "CREATE TABLE IF NOT EXISTS child_basic (id BIGINT PRIMARY KEY, parent_id BIGINT NOT NULL, payload VARCHAR(255) NOT NULL, CONSTRAINT fk_child_basic_parent FOREIGN KEY (parent_id) REFERENCES parent_basic(id))"

pub create_child_rebind_table_statement : Text
create_child_rebind_table_statement =
    codes
      "CREATE TABLE IF NOT EXISTS child_rebind (id BIGINT PRIMARY KEY, parent_id BIGINT NOT NULL, payload VARCHAR(255) NOT NULL, CONSTRAINT fk_child_rebind_parent FOREIGN KEY (parent_id) REFERENCES parent_basic(id))"

pub create_parent_cascade_table_statement : Text
create_parent_cascade_table_statement =
    codes
      "CREATE TABLE IF NOT EXISTS parent_cascade (id BIGINT PRIMARY KEY, note VARCHAR(255) NOT NULL)"

pub create_child_cascade_table_statement : Text
create_child_cascade_table_statement =
    codes
      "CREATE TABLE IF NOT EXISTS child_cascade (id BIGINT PRIMARY KEY, parent_id BIGINT NOT NULL, payload VARCHAR(255) NOT NULL, CONSTRAINT fk_child_cascade_parent FOREIGN KEY (parent_id) REFERENCES parent_cascade(id) ON DELETE CASCADE)"

pub create_parent_hot_table_statement : Text
create_parent_hot_table_statement =
    codes
      "CREATE TABLE IF NOT EXISTS parent_hot (id BIGINT PRIMARY KEY, note VARCHAR(255) NOT NULL)"

pub create_child_hot_table_statement : Text
create_child_hot_table_statement =
    codes
      "CREATE TABLE IF NOT EXISTS child_hot (id BIGINT PRIMARY KEY, parent_id BIGINT NOT NULL, payload VARCHAR(255) NOT NULL, CONSTRAINT fk_child_hot_parent FOREIGN KEY (parent_id) REFERENCES parent_hot(id))"

pub create_probe_summary_table_statement : Text
create_probe_summary_table_statement =
    codes
      "CREATE TABLE IF NOT EXISTS probe_summary (singleton_id TINYINT PRIMARY KEY, expected_fk_failure BIGINT NOT NULL, unexpected_failure BIGINT NOT NULL)"

unfoldable pub generic_schema_statements : List ApplyStatement
generic_schema_statements =
    plain create_parent_basic_table_statement
    ∷ plain create_child_basic_table_statement
    ∷ plain create_child_rebind_table_statement
    ∷ plain create_parent_cascade_table_statement
    ∷ plain create_child_cascade_table_statement
    ∷ plain create_parent_hot_table_statement
    ∷ plain create_child_hot_table_statement
    ∷ plain create_probe_summary_table_statement
    ∷ []

pub create_customer_table_statement : Text
create_customer_table_statement =
    codes "CREATE TABLE IF NOT EXISTS customer (id BIGINT PRIMARY KEY, status VARCHAR(32) NOT NULL)"

pub create_folio_table_statement : Text
create_folio_table_statement =
    codes
      "CREATE TABLE IF NOT EXISTS folio (id BIGINT PRIMARY KEY, customer_id BIGINT NOT NULL, last_statement_id BIGINT NULL, CONSTRAINT fk_folio_customer FOREIGN KEY (customer_id) REFERENCES customer(id))"

pub create_journal_table_statement : Text
create_journal_table_statement =
    codes
      "CREATE TABLE IF NOT EXISTS journal (id BIGINT PRIMARY KEY, customer_id BIGINT NOT NULL, folio_id BIGINT NOT NULL, member_id BIGINT NULL, reference VARCHAR(255) NOT NULL, amount_cents BIGINT NOT NULL, CONSTRAINT fk_journal_customer FOREIGN KEY (customer_id) REFERENCES customer(id), CONSTRAINT fk_journal_folio FOREIGN KEY (folio_id) REFERENCES folio(id))"

pub create_posting_table_statement : Text
create_posting_table_statement =
    codes
      "CREATE TABLE IF NOT EXISTS posting (id BIGINT PRIMARY KEY, journal_id BIGINT NOT NULL, status VARCHAR(32) NOT NULL, amount_cents BIGINT NOT NULL, CONSTRAINT fk_posting_journal FOREIGN KEY (journal_id) REFERENCES journal(id))"

pub create_bill_table_statement : Text
create_bill_table_statement =
    codes
      "CREATE TABLE IF NOT EXISTS bill (id BIGINT PRIMARY KEY, journal_id BIGINT NOT NULL, folio_id BIGINT NOT NULL, status VARCHAR(32) NOT NULL, total_cents BIGINT NOT NULL, paid_cents BIGINT NOT NULL, version BIGINT NOT NULL DEFAULT 0, CONSTRAINT fk_bill_journal FOREIGN KEY (journal_id) REFERENCES journal(id), CONSTRAINT fk_bill_folio FOREIGN KEY (folio_id) REFERENCES folio(id))"

pub create_payment_table_statement : Text
create_payment_table_statement =
    codes
      "CREATE TABLE IF NOT EXISTS payment (id BIGINT PRIMARY KEY, bill_id BIGINT NOT NULL, journal_id BIGINT NOT NULL, status VARCHAR(32) NOT NULL, amount_cents BIGINT NOT NULL, CONSTRAINT fk_payment_bill FOREIGN KEY (bill_id) REFERENCES bill(id), CONSTRAINT fk_payment_journal FOREIGN KEY (journal_id) REFERENCES journal(id))"

pub create_folio_balance_table_statement : Text
create_folio_balance_table_statement =
    codes
      "CREATE TABLE IF NOT EXISTS foliobalance (id BIGINT PRIMARY KEY, customer_id BIGINT NOT NULL, folio_id BIGINT NOT NULL, balance_cents BIGINT NOT NULL, updated_count BIGINT NOT NULL DEFAULT 0, CONSTRAINT fk_foliobalance_customer FOREIGN KEY (customer_id) REFERENCES customer(id), CONSTRAINT fk_foliobalance_folio FOREIGN KEY (folio_id) REFERENCES folio(id))"

pub create_fee_log_table_statement : Text
create_fee_log_table_statement =
    codes
      "CREATE TABLE IF NOT EXISTS feelog (id BIGINT PRIMARY KEY, journal_id BIGINT NOT NULL, fee_bill_id BIGINT NULL, amount_cents BIGINT NOT NULL, CONSTRAINT fk_feelog_journal FOREIGN KEY (journal_id) REFERENCES journal(id), CONSTRAINT fk_feelog_bill FOREIGN KEY (fee_bill_id) REFERENCES bill(id))"

pub create_statement_table_statement : Text
create_statement_table_statement =
    codes
      "CREATE TABLE IF NOT EXISTS statement (id BIGINT PRIMARY KEY, customer_id BIGINT NOT NULL, folio_id BIGINT NOT NULL, status VARCHAR(32) NOT NULL, balance_cents BIGINT NOT NULL, CONSTRAINT fk_statement_customer FOREIGN KEY (customer_id) REFERENCES customer(id), CONSTRAINT fk_statement_folio FOREIGN KEY (folio_id) REFERENCES folio(id))"

pub create_withdrawal_table_statement : Text
create_withdrawal_table_statement =
    codes
      "CREATE TABLE IF NOT EXISTS withdrawal (id BIGINT PRIMARY KEY, journal_id BIGINT NOT NULL, statement_id BIGINT NULL, status VARCHAR(32) NOT NULL, amount_cents BIGINT NOT NULL, CONSTRAINT fk_withdrawal_journal FOREIGN KEY (journal_id) REFERENCES journal(id), CONSTRAINT fk_withdrawal_statement FOREIGN KEY (statement_id) REFERENCES statement(id) ON DELETE CASCADE)"

unfoldable pub billing_schema_statements : List ApplyStatement
billing_schema_statements =
    plain create_customer_table_statement
    ∷ plain create_folio_table_statement
    ∷ plain create_journal_table_statement
    ∷ plain create_posting_table_statement
    ∷ plain create_bill_table_statement
    ∷ plain create_payment_table_statement
    ∷ plain create_folio_balance_table_statement
    ∷ plain create_fee_log_table_statement
    ∷ plain create_statement_table_statement
    ∷ plain create_withdrawal_table_statement
    ∷ []
