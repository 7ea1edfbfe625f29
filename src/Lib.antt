-- ===== src/Lib.antt =====
-- A library that verifies the core of mindin, a server that gives coding agents a vault of Markdown
-- notes: what may be written where, what is written, and that no writer undoes another's work. Text is
-- a list of code points throughout, bytes as well.
--
-- The parts, from the bottom up:
--   Backends              mindin/backends/__init__.py: the calls on a storage and what a client may rely
--                         on (`Versioned`), which keys are notes, the check before a delete.
--   Backends.Local        mindin/backends/local.py: the storage in a folder. The disk is a table of
--                         files and a list of folders; `Backends.Local.Paths` resolves a key below the
--                         root, as `Path.resolve` does where there are no symbolic links. The lock that
--                         `put_checked` holds makes a check and its write one step here. In
--                         `Backends.Local.Guards` the hash may have collisions; `Backends.Local.Laws`
--                         takes it to have none, for the clients of `Versioned`, and
--                         `Backends.Local.Calm` says when a write is refused as a conflict.
--   Schema                mindin/schema.py: what the program asks of a schema that has been loaded.
--   Frontmatter           mindin/frontmatter.py: the block at the top of a note (`Frontmatter.Block` is
--                         the regular expression), the claim in it, and the contract of a schema
--                         (`Frontmatter.Validate`). PyYAML is the parameter `Yaml`.
--   Shared                mindin/shared.py: what a shared vault takes; `Shared.Recording` is the storage
--                         that applies it and records who wrote what.
--   Notes                 mindin/notes.py: `Notes.Key` names a note, `Notes.Vault` is the state that
--                         the tools work on, `Notes.Rewrite` is the loop of reading, changing and
--                         writing over the version that was read, `Notes.Stamps` the dates and the
--                         claim of the frontmatter, `Notes.Operations` the tools (in its `Changes`
--                         and `Restated`, what they make of a note), `Notes.FreeKey` the search for a
--                         name that is free.
--   Tasks                 mindin/tasks.py: `Tasks.Claims` takes and releases a task note.
--   Vaults                mindin/vault.py: the table of open vaults that `SubjectVaults` keeps, what is
--                         in use and what is evicted; each function is one hold of its lock.
--   Device                mindin/auth/device.py with the devices of mindin/auth/hosted_store.py: a code is
--                         polled for, approved or denied, and gives a key.
--   Notes.Close           `close`: a note that is done moves to the archive. `Notes.Slug` names notes by
--                         their titles, `Notes.Backlog` adds a note to the backlog, `Notes.Listed` is what
--                         `backlog` and `context` choose from the rows of the index.
--   Layout                mindin/schema.py and mindin/presets.py: a schema file is laid over its preset
--                         (`Layout.Merge`), checked (`Layout.Problems`, `Layout.Contract`) and read
--                         (`Layout.Fields`, `Layout.Loading`) as the record that `Schema` works on.
--   Sealed                mindin/backends/sealed.py: contents and names under a cipher, which is the
--                         parameter `Cipher` of `Sealed.Names`, and the listing that it caches.
--   Dav                   mindin/dav.py: `Dav.Paths` reads paths and preconditions, `Dav.Resources` finds
--                         a resource, `Dav.Methods` is a function per method, `Dav.Requests` is the
--                         handler of a request.
--   Hosted                mindin/auth/hosted_store.py, hosted_vaults.py and hosted.py beside it: the tables
--                         of the hosted service. `Hosted.Sharing` is what changes vaults, addresses and
--                         members, `Hosted.Keys` the keys, `Hosted.Tokens` the codes and tokens and what
--                         a request is let in with, `Hosted.Limits` the counter of attempts of
--                         mindin/auth/hosted_web.py.
--   Examples              the theorems at concrete inputs.
--
-- The tools call a `Backend` record, and rely on the laws of `Versioned`, which Backends.Local.Laws
-- proves of the storage in a folder under a hash without collisions. Other writers share the storage: a `Vault` holds a list of changes
-- of theirs, one of which is made before each call of a tool on the storage (`Notes.Vault.interfere`),
-- so a theorem about any vault is about any interleaving of the calls with the work of others.
--
-- Bounds and fuel: `rewrite` makes four rounds and `claim_note` three, as the code does, and both end in
-- a version conflict if every round met another writer. `close` and `backlog_add` make four rounds too.
-- `free_key` looks at one number more than there are keys, which is enough since the numbered names
-- differ.
--
-- Not modelled: the server, the command line, search, embedding, the pages, sessions and migrations of
-- the hosted service, a vault that is created without an address, and S3; the manifest lists each part
-- with the reason. Of what is modelled, the wording of messages and results is left out, except where it
-- is stored, and so is the XML of WebDAV.
pub mod Prelude
pub mod Backends
pub mod Schema
pub mod Frontmatter
pub mod Shared
pub mod Notes
pub mod Tasks
pub mod Vaults
pub mod Device
pub mod Sealed
pub mod Layout
pub mod Hosted
pub mod Dav
mod Examples
