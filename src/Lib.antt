-- ===== src/Lib.antt =====
-- emarsys-mock: a mock of the Emarsys Suite API over an SQLite database.
--
-- The program is an HTTP server. A request goes through the middleware of internal/httpx and the
-- fault injection of internal/server/fault.go to a handler of internal/server; a handler decodes the
-- body, checks it against the catalogue of fields, calls the store of internal/store and answers with
-- an envelope of internal/api.
--
-- Base: the helpers that the modules share. A Go string is the list of its bytes, an int or int64 an
-- integer without a bound (an id that the database gave is a natural number), a map an association
-- list; Base.Keyed has m[k] and m[k] = v.
--
-- Store.Tables: the tables of internal/store/migrations, lists of rows with the counters of the keys.
-- Store.Exec: code that talks to the database, from a world to a result and a world. The world has the
-- tables, the number of calls so far and a driver that says which calls fail, what the clock reads and
-- what the random sources give. An error keeps what was written before it; with_tx (WithTx) undoes it.
-- Store.Exec.Rules and Store.Exec.Yields: rules for what code keeps, reads and leaves on each way out.
-- Store.Field, Store.Contact, Store.History, Store.Fault, Store.Export, Store.List, Store.Segment,
-- Store.Event, Store.ApiUser: the files of internal/store of those names; a SELECT is a function of
-- the tables, and an INSERT, UPDATE or DELETE one to new tables or to a violated constraint. Rows go
-- in by growing id, so ORDER BY id is the order of the list. AUTOINCREMENT, UNIQUE, the foreign keys
-- and their cascades are written out.
--
-- Store.Migrate, Store.Migrate.Drop: internal/store/migrate.go, on a database whose tables are of any
-- type; what the scripts of the migrations and DROP TABLE do to them is a parameter, since SQLite runs
-- them. A call of the pool while dropAll has its one connection is one that does not return.
--
-- Api: internal/api, the reply codes and the envelope.
-- Server.Json, Server.ContactValue, Server.Contact, Server.ContactRead, Server.Fault, Server.List,
-- Server.Segment, Server.Event, Server.Field, Server.Export: json.go, contactvalue.go,
-- handler_contact.go, handler_contact_read.go, fault.go, handler_list.go, handler_segment.go,
-- handler_event.go, handler_field.go and handler_export.go of internal/server; Server.Csv and
-- Server.Download have the rest of handler_export.go. A handler is code whose error is the failure
-- that it answers. What encoding/json makes of a body is its input; Server.Common has the settings and
-- the functions of the standard library that are parameters: strconv.ParseFloat, %q, json.Marshal of
-- an object, time.Parse and Time.Format, and Server.Export has those of the exports. What the
-- trigger handler posts is in its answer; Webhook, internal/webhook/webhook.go, says what is posted.
-- Server.Ctl, Server.Ctl.Seed, Server.Ctl.Routes: ctl.go of internal/server and the routes of the
-- control plane in server.go. The texts of errors, package net and DB.Reset, which Store.Migrate
-- models on its own, are in a record of parameters.
-- Httpx.RateLimit, Httpx.LimitBody: ratelimit.go and middleware.go of internal/httpx. Times are
-- nanoseconds; a lock makes a call of Allow one step.
-- Httpx.Logging and Store.RequestLog: log.go of internal/httpx, where a handler is the calls that it
-- makes of its writer, and the table that it writes to, internal/store/requestlog.go.
-- Auth: wsse.go, jwt.go, middleware.go and oauth.go of internal/auth. What they take from Go's library
-- (time.Parse, SHA-1, HMAC-SHA-256, hexadecimal, base64, JSON of the claims) is a record of parameters.
-- Record: internal/record. Record.Patterns has the regular expressions, Record.Redact redact.go,
-- Record.Shape, Record.Describe and Record.Summary shape.go, and Record.Proxy proxy.go. HMAC-SHA-256,
-- JSON, the account and the file are parameters.
-- Tests: inputs and runs.
--
-- Every loop is a recursion over a list, so there is no fuel. The statements of a handler run one
-- after the other on one database: two requests at a time are not modelled. A result that SQLite stops
-- to give in the middle of its rows counts as a call that fails. Text is bytes, and letters beyond
-- ASCII have no case in to_lower and equal_fold.
--
-- Not modelled: the other routes and the pages of the dashboard, which call the same stores from forms
-- and templates; the report of a recording, the delivery of the posts, the opening of the database and the
-- configuration, which are input and output.
pub mod Base
pub mod Store
pub mod Api
pub mod Httpx
pub mod Auth
pub mod Server
pub mod Record
pub mod Webhook
pub mod Tests
