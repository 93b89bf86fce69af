-- ===== src/Lib.antt =====
-- Rwf, a web framework in Rust: the template engine, the text helpers, percent-encoding, request
-- heads, paths and routes, forms, WebSocket frames, encryption, the middleware and its rate limiter, the query builder,
-- migrations, the connection pool and the job queue.
--
-- The parts and their files:
-- * The template engine (rwf/src/view/template). A source is a text of code points. Template/Lexer
--   cuts it into tokens (`Lexer::tokens` and `drain_buffer` of lexer/mod.rs, one function per arm of
--   the match). Template/Expression/Parse and Template/Statement/Parse are the parsers of
--   language/expression.rs, language/statement.rs and language/program.rs over the list of the tokens
--   left; Template/Expression/Evaluate and Template/Statement/Evaluate evaluate what they read, over
--   the operators of Template/Op (language/op.rs) and the values of Template/Value (lexer/value.rs),
--   in a context of variables (context.rs). Template/Render compiles and renders a template, which may
--   render others (`Template` of mod.rs); Template/Render/Cache is the cache of view/cache.rs.
-- * The text helpers of rwf/src/lib.rs: Strings.antt. The engine prints values through `safe_html`
--   and calls the others as methods of strings.
-- * Percent-encoding, rwf/src/http/url.rs: Http/Url.antt, also methods of strings.
-- * The head of a request, rwf/src/http/head.rs, headers.rs and authorization.rs: Http/Head.antt, over the
--   paths of Http/Path. The loop over the headers has the number of the bytes and one as fuel: a line that is
--   not empty takes a byte at least.
-- * Cookies, rwf/src/http/cookies.rs: Http/Cookies.antt. The map of cookies is an association list; the
--   encryption, and the text of a date, are parameters.
-- * Forms, rwf/src/http/form_data.rs: Http/Form.antt for multipart bodies and their headers, Http/Form/Submitted.antt
--   for what a request submits. A round of the reader takes a byte at least, so the length of the body is fuel.
-- * Encryption, rwf/src/crypto.rs: Crypto.antt. The cipher, the encoding of its bytes, random bytes and the
--   clock are parameters.
-- * Paths and queries, rwf/src/http/path: Http/Path.antt over the functions of Http/Url. The routes are in
--   Http/Router.antt: http/path/with_regex.rs, http/path/params.rs, http/handler.rs and http/router.rs.
-- * WebSocket frames, rwf/src/http/websocket/mod.rs: Http/WebSocket.antt. A stream is a list of bytes, a
--   read gives what it reads and the bytes behind, a write the bytes that it writes.
-- * The rate limiter, rwf/src/controller/middleware/rate_limiter.rs: RateLimiter.antt. The state behind
--   the mutex is an association list from addresses to counters, and a request is one step on it.
-- * The chain of middleware, rwf/src/controller/middleware/mod.rs and rwf/src/controller/mod.rs:
--   Middleware.antt. A middleware is its two handlers over a state that all share; the controller, the
--   responses to its errors and what a request adds to a response are parameters.
-- * The middleware against forged requests and for encrypted identifiers, csrf.rs and secure_id.rs beside it:
--   Middleware/Csrf.antt over Crypto and Http/Form, Middleware/SecureId.antt over Crypto and Http/Path.
-- * The query builder (rwf/src/model): Orm/Value.antt for value.rs, column.rs and escape.rs,
--   Orm/Filter.antt for filter.rs, Orm/Clauses.antt for the other clauses, Orm/Select.antt for select.rs
--   and placeholders.rs, Orm/Write.antt for update.rs and insert.rs. A query is a record, and each
--   method gives the query after it, or none where it panics. Orm/Query.antt is the `Query` of mod.rs over these
--   statements, Orm/Query/Execute.antt what it sends to a database, a parameter, and Orm/Model.antt the methods
--   that a model has of its trait.
-- * Migrations, rwf/src/model/migrations: Orm/Migrations.antt for the files, their checks and the rows of model.rs,
--   Orm/Migrations/Sync.antt, Apply.antt and Whole.antt for the functions of mod.rs. The folder, the regex of the
--   file names and the database are parameters (Store.antt); a transaction is a copy of the database until it is
--   committed.
-- * The connection pool, rwf/src/model/pool: Pool.antt. Its state is what the mutex guards and what tasks
--   hold; a section that holds the lock is an event, and a run is any sequence of events.
-- * The job queue, rwf/src/job: Job/Queue.antt. Its state is the table of jobs and the copies of rows that
--   workers hold; a statement or a transaction on the table is an event. Job/Cron.antt is cron.rs: a schedule, and
--   whether it runs at an instant.
-- Prelude holds what they share: texts, i64 with its wrap-around or overflow, and the outcome of a
-- call, which is a value, an error, a panic, or the end of the fuel of the model.
--
-- Parameters: Template/Host.antt names what the engine uses of Rust's standard library, of the file
-- system and of other crates (f64, the Unicode tables, files, encryption). The router has the regex crate
-- as parameters, frames the lossy conversion to UTF-8. The clock and the rate of
-- the rate limiter, an f32, are arguments, and so is the printing of floats in the query builder.
--
-- Bounds and fuel: a round of the lexer takes a character at least, so the length of the source is
-- enough. A call of a parser, or a round of its loops, is made at most twice for a token, so twice the
-- number of tokens and two more are enough. Templates that render templates have a depth, which is an
-- argument: a template that renders itself does not end. The number of a placeholder is an i32; the
-- model is that of fewer than 2^31 values. A usize has 64 bits.
--
-- Not modelled: the text of errors that points at a line, the conversions to
-- and from JSON and the wire protocol of PostgreSQL, the rows of the query
-- builder, the clock of the jobs, the server and its controllers, and
-- the command line.
pub mod Prelude
pub mod Template
pub mod Strings
pub mod Http
pub mod RateLimiter
pub mod Orm
pub mod Crypto
pub mod Job
pub mod Middleware
pub mod Pool
