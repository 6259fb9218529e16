-- ===== src/Transport/Duplex/Delivers.antt =====
-- What the output stream of `duplex` of packages/ddc/src/transports/WebsocketTransport.ts delivers.
