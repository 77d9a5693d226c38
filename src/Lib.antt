-- ===== src/Lib.antt =====
-- The Stremio addon of DebridNest: search, ranking, deduplication and playback.
--
-- The addon (stremio-addon) answers Stremio's request for the streams of a movie or an episode. It
-- asks Jackett for torrents, adds season packs, removes duplicates, ranks what is left, orders the
-- listing by what the debrid server has cached, and on playback has the server download the torrent,
-- selects the file and resolves its link.
--
-- The files and the code they model:
--   Torrent, Quality: the data, and stremio-addon/lib/quality.js
--   Rank: stremio-addon/lib/rank.js (Titles: which titles match a request; Score: rejection, score
--     and ranking; Listing: the two orderings; Labels: the texts shown)
--   SeasonPacks: stremio-addon/lib/seasonPacks.js (isSeasonPackTitle, mergeEpisodeAndSeasonResults,
--     enrichWithSeasonPacks)
--   Dedupe: stremio-addon/lib/dedupe.js (collapseDuplicates)
--   Jackett: stremio-addon/lib/jackett.js (torrentIdentity, mergeTorrentResults, buildSearchQuery;
--     Search: searchTorrentsDetailed; TorrentFiles: downloadTorrentFile and its cache)
--   Scrapers: stremio-addon/lib/scrapers.js (searchAllDetailed and its cache), which composes the
--     components above
--   Progress, ExternalPlayer, on Expiring: stremio-addon/lib/progress.js (createJob, getJob, cleanup)
--     and stremio-addon/lib/externalPlayer.js (registerStream, getStream, escapeHtml)
--   DebridNest: stremio-addon/lib/debridnest.js (pickVideoFile, pickHostLink; Magnet:
--     appendDefaultTrackers; Client: prepareTorrent, resolveStreamUrl, waitForDownload, resolveMagnet;
--     Cached: checkInstantAvailability, resolveCachedOnly, checkDownloadReady,
--     resolveTorrentCandidate)
--   Play: stremio-addon/lib/playHandler.js and stremio-addon/lib/progressHandler.js (resolvePlayUrl,
--     ensureTorrentStarted, resolveJobStream; Waiting: waitForPlayUrl; Shared: requests that share
--     job.starting; Routes: handleProgressRequest, waitForJobDownloadUrl, and the routes /progress and
--     /ready of stremio-addon/index.js), over Progress and DebridNest
--   Cinemeta: stremio-addon/lib/cinemeta.js (parseStremioId, fetchMeta, resolveMetadata)
--   Config: stremio-addon/index.js (getConfig and what it calls) and stremio-addon/lib/jackettConfig.js
--     (isPlaceholderKey, resolveDefaultApiKey)
--   StreamObject, Streams: stremio-addon/index.js (buildStreamObject, and the handler of stream
--     requests, which composes all of the components above; Streams is its two loops,
--     Streams.Handler the whole and Streams.Diagnostics buildStreamDiagnostics)
--   Server: stremio-addon/index.js (requireLocalOrAdmin, requireDiagnosticsAccess,
--     isDockerBridgeIp, collapseDuplicatedToken)
--   Dashboard: web/dashboard/src/lib (Status, Lifecycle: torrentLifecycle.ts; Activity:
--     activityFormat.ts; Format: format.ts)
--   Prelude, Text, JsMap, Sort: lists and numbers, JavaScript's strings with the regular expressions
--     that the addon uses, its Map, and its stable sort
--   Tests: concrete values, and the theorems applied to them
--
-- How the code is read. A function is a function by clauses under its name in snake_case. A text is
-- the list of its character codes; toLowerCase is that of ASCII. A number that the code reads by
-- Number is a natural number, or where it can be a fraction a decimal; a score is an integer. A Map
-- is a list of entries in the order in which the keys were first set. A call that changes a map takes
-- it and returns it; the clock's reading and random identifiers are arguments. An exception is an
-- outcome of its own. What is outside the repository is an argument: Jackett's answer to a query,
-- whether a URL is a download link, and the debrid server's calls (the record Api), with what is
-- asked of them as named hypotheses (Obeys, Responds, IsTimely, IsSteady, NamesTorrents).
--
-- Bounds and fuel. Regular expressions backtrack over positions, a repetition at most as often as the
-- text is long, since each round reads something. prepareTorrent and the polling loops take fuel, and
-- `pending` is the outcome of too little: two rounds are enough for the first against a server whose
-- answer after a selection tells it, and one to three more than the milliseconds of the waiting time
-- for the others, since a pause takes at least one.
--
-- Not modelled: a limit of results that is below zero or written with an exponent, and an id whose
-- season or episode is below zero (getConfig and the handlers are partial there: `none`); the
-- rounding of the logarithm by which formatBytes chooses a unit (its floor is an argument); the other
-- routes of stremio-addon/index.js, its test of magnet links and its HTML; withJobLock, which queues
-- asynchronous work; the key files and the probe of jackettConfig.js; the templates (landing.js); the
-- XML of Jackett's answers; the debrid server in Go (internal, cmd); the pages of the dashboard (web)
-- and the deployment files.
pub mod Prelude
pub mod Text
pub mod JsMap
pub mod Sort
pub mod Torrent
pub mod Quality
pub mod SeasonPacks
pub mod Rank
pub mod Dedupe
pub mod Expiring
pub mod Progress
pub mod ExternalPlayer
pub mod DebridNest
pub mod Jackett
pub mod Scrapers
pub mod Play
pub mod Server
pub mod Config
pub mod StreamObject
pub mod Streams
pub mod Dashboard
pub mod Cinemeta
pub mod Tests
